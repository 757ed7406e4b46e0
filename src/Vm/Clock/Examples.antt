-- ===== src/Vm/Clock/Examples.antt =====
-- Runs of the clock, and its theorems at a concrete table.
use pintos_lab.Base.{ℕ, zero, suc, ◌≡◌, refl, false, Option, none, some, get_elem?, arith}
use pintos_lab.Vm.State.{Frame, Vm}
use pintos_lab.Vm.Clock.{select_victim}
use pintos_lab.Vm.Clock.Step.{IsScannable}
use pintos_lab.Vm.Clock.Victim.{Chooses, select_victim-Chooses}
use pintos_lab.Vm.Clock.Live.{select_victim_finds}
use pintos_lab.Vm.Examples.{machine, half_full, frame_of}

abbrev table : Vm
table = machine (half_full false)

abbrev chosen : Option (Option ℕ × Vm) → Option ℕ
chosen none = none
chosen (some (i, vm)) = i

-- Every page has been used: the hand goes round once, clearing bits, and takes the first frame that
-- it meets again.
clock_runs : chosen (select_victim table) ≡ some 2
unfolding select_victim
clock_runs = refl

table-IsScannable : IsScannable table
table-IsScannable = record { hand_in = omega arith; paged = paged }
  where
    paged : (i : ℕ) (f : Frame) → get_elem? table.frames i ≡ some f → (p : ℕ) × (f.page ≡ some p)
    paged zero f e = (10, ground (arith, e))
    paged (suc zero) f e = (11, ground (arith, e))
    paged (suc (suc zero)) f e = (12, ground (arith, e))
    paged (suc (suc (suc i))) f e = absurd (ground (arith, e))

select_victim_example : Chooses table (select_victim table)
select_victim_example = select_victim-Chooses table table-IsScannable

select_victim_finds_example : (i : ℕ) × (vm' : Vm) × (select_victim table ≡ some (some i, vm'))
select_victim_finds_example =
    select_victim_finds table 1 (frame_of 1 false) table-IsScannable refl refl
