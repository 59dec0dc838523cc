-- ===== src/User/Wrapper.antt =====
-- userMainWrapper of src/main.cpp, behind userMain.
use os1_project.Kernel.{Kernel}
