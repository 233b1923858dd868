-- ===== src/TaskMem/Tests.antt =====
-- Instances of the theorems: a kernel directory without tables in page 0x400.
use ord_os.Base.{ℕ, ◌⊎◌, refl, arith}
use ord_os.Buddy.Normal.{buddy, buddy-IsBuddy}
use ord_os.Vpage.{Paging}
use ord_os.Vpage.Walk.{Directed}
use ord_os.TaskMem.{task_init_stack, task_init_page_table}
use ord_os.TaskMem.Directory.{IsKernel, Shared, NoPage, task_init_page_table-Shared}
use ord_os.TaskMem.Stack.{Ready, task_init_stack-Ready}

abbrev state : Paging
state = record { buddy = buddy; words = λ a i. 0 }

nothing : (i pt : ℕ) → Directed state 0x40_0000 i pt → ⊥
nothing i pt d = cc

state-IsKernel : IsKernel 0x40_0000 state
state-IsKernel = record {
  word = λ i. omega arith;
  directory = λ p e f. ground (arith, f.1, f.2, e);
  table = λ i pt p lo hi d. absurd (nothing i pt d);
}

task_init_page_table-Shared_example :
    Shared 0x40_0000 state (task_init_page_table 0xc040_0000 state)
    ⊎ NoPage state (task_init_page_table 0xc040_0000 state)
task_init_page_table-Shared_example =
    task_init_page_table-Shared 0x40_0000 state buddy-IsBuddy refl state-IsKernel

task_init_stack-Ready_example :
    Ready 0xc010_0000 0xc010_1000 7 state (task_init_stack 0xc010_0000 0xc010_1000 7 state)
    ⊎ NoPage state (task_init_stack 0xc010_0000 0xc010_1000 7 state)
task_init_stack-Ready_example =
    task_init_stack-Ready 0xc010_0000 0xc010_1000 7 state buddy-IsBuddy refl
