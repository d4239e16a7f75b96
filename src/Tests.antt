-- ===== src/Tests.antt =====
-- Tests of the C library's functions, and witnesses of the theorems at concrete inputs.
mod Samples
mod Threads
mod Devices
mod Managers
mod Texts
mod Server
mod Files
mod Stops
mod Libraries
mod Publishing
mod Databases
mod Mains
mod Grpc
mod Streams
use mapper_framework_c.Prelude.{◌≡◌, refl, none, some}
use mapper_framework_c.Prelude.Int.{pos, negsuc}
use mapper_framework_c.Prelude.CString.{codes, after_last, print_int, atoi}

atoi_tests :
    (atoi (codes " -12x") ≡ negsuc 11)
    × (atoi (codes "65536") ≡ pos 65536)
    × (atoi (codes "4294967297") ≡ pos 1)
    × (atoi (codes "x") ≡ pos 0)
unfolding atoi
atoi_tests = (refl, refl, refl, refl)

print_int_tests : (print_int (pos 1502) ≡ codes "1502") × (print_int (negsuc 9) ≡ codes "-10")
unfolding print_int
print_int_tests = (refl, refl)

after_last_tests :
    (after_last b'.' (codes "a.b.c") ≡ some (codes "c")) × (after_last b'.' (codes "a") ≡ none)
unfolding after_last
after_last_tests = (refl, refl)
