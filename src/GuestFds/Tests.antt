-- ===== src/GuestFds/Tests.antt =====
-- A limit of two, and the theorems applied to it.
use virtiofsd.Common.{◌≡◌, List, [], ◌∷◌, arith}
use virtiofsd.Common.Io.{done}
use virtiofsd.GuestFds.{State, new, allocate, Call, take, close, run}
use virtiofsd.GuestFds.Limit.{IsBalanced, run-IsBalanced, Allocated, allocate_exact}

abbrev calls : List Call
calls = take 5 ∷ take 6 ∷ take 7 ∷ close 5 ∷ take 8 ∷ []

run-IsBalanced_example : (s : State) × (run calls (new 2) ≡ done s) × IsBalanced 2 s
run-IsBalanced_example = run-IsBalanced 2 calls (omega arith)

allocate_exact_example : Allocated 2 (new 2) 5 (allocate (new 2) 5)
unfolding new
allocate_exact_example = allocate_exact 2 (new 2) 5 (omega arith)
