-- ===== src/Vm/Clock/Live.antt =====
-- `select_victim` finds a victim whenever some frame is not pinned: twice round the table is
-- enough.
use pintos_lab.Base.{
  ℕ, zero, suc, ◌+◌, ◌-◌, ◌*◌, ◌<◌, ◌≡◌, refl, ◌≢◌, Bool, true, false, Option, some, ◌==◌, leb,
  if◌then◌else◌, arith, length, get_elem?, ℕ_discrete,
}
use pintos_lab.Vm.State.{Frame, Vm, Hand, at_end, at, dangling}
use pintos_lab.Vm.Clock.{
  is_accessed, set_accessed, hand_next, clock_step, clock_loop, select_victim,
}
use pintos_lab.Vm.Clock.Step.{
  position, HandIsIn, IsScannable, is_accessed-set_accessed, moved, moved-IsScannable,
  set_accessed-IsScannable, Round, skipped, cleared, found, clock_step-Round,
}
use pintos_lab.Vm.Clock.Victim.{
  in_table, not_empty, select_victim-loop, loop_next, loop_found, moved-accessed,
}

-- Rounds until a hand at `i` looks at `j`, in a table of `n`.
abbrev distance : ℕ → ℕ → ℕ → ℕ
distance n i j = if leb i j then j - i else j + n - i

distance_next :
    (n i j : ℕ)
    → i < n
    → j < n
    → (distance n (position (hand_next n i)) j + 1 ≡ (if i == j then n else distance n i j))
distance_next n i j p q = ground arith

-- Rounds in which the frame at `j`, whose accessed bit is `acc`, is chosen if no other is.
abbrev budget : Vm → ℕ → Bool → ℕ
budget vm j acc =
    distance (length vm.frames) (position vm.hand) j + (if acc then length vm.frames else 0)

-- The frame at `j` has a page and is not pinned.
record IsEvictable (vm : Vm) (j p : ℕ) (f : Frame) : Type 0 where
  there : get_elem? vm.frames j ≡ some f
  paged : f.page ≡ some p
  unpinned : f.pinned ≡ false

abbrev Finds : Option (Option ℕ × Vm) → Type 0
Finds r = (i : ℕ) × (vm' : Vm) × (r ≡ some (some i, vm'))

-- A round that clears a bit brings the choice nearer, also where it clears the bit of the frame at
-- `j`.
cleared_budget :
    (vm : Vm) (i j o va' o' va n : ℕ)
    → i ≡ position vm.hand
    → i < length vm.frames
    → j < length vm.frames
    → (i ≡ j → (o ≡ o') × (va' ≡ va))
    → is_accessed vm o va' ≡ true
    → budget vm j (is_accessed vm o' va) < suc n
    → budget (moved vm i) j (is_accessed (set_accessed (moved vm i) o va' false) o' va) < n
cleared_budget vm i j o va' o' va n q li lj same acc h = elim (ℕ_discrete i j) [
  | yes e ↦
      let (x, y) = same e in
      ground (
        arith,
        distance_next (length vm.frames) i j li lj,
        is_accessed-set_accessed (moved vm i) o va' o' va,
        x,
        y,
      )
  | no ne ↦ ground (
    arith,
    distance_next (length vm.frames) i j li lj,
    is_accessed-set_accessed (moved vm i) o va' o' va,
    moved-accessed vm i o' va,
  )
]

module _ (n j p : ℕ) (f : Frame) (va : ℕ) where
  -- What the loop of `n` rounds does, and what one round more makes of it.
  abbrev Loop : ℕ → Type 0
  Loop m =
      (vm : Vm)
      → IsScannable vm
      → IsEvictable vm j p f
      → (vm.pages p).va ≡ va
      → budget vm j (is_accessed vm f.owner va) < m
      → Finds (clock_loop m vm)

  Round-Finds :
      (vm : Vm)
      → Loop n
      → IsScannable vm
      → IsEvictable vm j p f
      → (vm.pages p).va ≡ va
      → budget vm j (is_accessed vm f.owner va) < suc n
      → (r : Option (Option ℕ × Vm)) → Round vm r
      → clock_step vm ≡ r
      → Finds (clock_loop (suc n) vm)
  Round-Finds vm rec s t w h _ (skipped i g q k pin) e = rw (loop_next n vm (moved vm i) e) (
      rec (moved vm i) (moved-IsScannable vm i s (in_table vm i g k))
        (record { there = t.there; paged = t.paged; unpinned = t.unpinned }) w
        (ground (
          arith,
          not_same,
          distance_next (length vm.frames) i j (in_table vm i g k) (in_table vm j f t.there),
          moved-accessed vm i f.owner va,
        )))
    where
      not_same : i ≢ j
      not_same x = ground (arith, x, t.there, t.unpinned)
  Round-Finds vm rec s t w h _ (cleared i p' g q k m pin acc) e = rw (loop_next n vm vm' e) (
      rec vm'
        (set_accessed-IsScannable (moved vm i) g.owner va'
          (moved-IsScannable vm i s (in_table vm i g k)))
        (unfold set_accessed in record { there = t.there; paged = t.paged; unpinned = t.unpinned })
        (unfold set_accessed in w) (unfold set_accessed in less))
    where
      va' : ℕ
      va' = (vm.pages p').va

      vm' : Vm
      vm' = set_accessed (moved vm i) g.owner va' false

      same_frame : i ≡ j → (g.owner ≡ f.owner) × (va' ≡ va)
      same_frame x = ground (arith, x, t.there, t.paged)

      less : budget (moved vm i) j (is_accessed vm' f.owner va) < n
      less =
          cleared_budget vm i j g.owner va' f.owner va n q (in_table vm i g k)
            (in_table vm j f t.there) same_frame acc h
  Round-Finds vm rec s t w h _ (found i p' g q k m pin acc) e =
      (i, moved vm i, loop_found n vm (moved vm i) i e)

Loop-Finds : (j p va : ℕ) (f : Frame) (n : ℕ) → Loop n j p f va n
Loop-Finds j p va f zero vm s t w h = absurd (omega arith)
Loop-Finds j p va f (suc n) vm s t w h =
    Round-Finds n j p f va vm (Loop-Finds j p va f n) s t w h (clock_step vm)
      (clock_step-Round vm s) refl

position-lt : (vm : Vm) → IsScannable vm → position vm.hand < length vm.frames
position-lt vm s = from_hand (length vm.frames) vm.hand s.hand_in
  where
    from_hand : (n : ℕ) (h : Hand) → HandIsIn n h → position h < n
    from_hand n at_end k = k
    from_hand n (at i) k = k
    from_hand n dangling k = elim k [ ]

-- If the hand is in the table, every frame has a page and some frame is not pinned, then
-- `select_victim` returns a frame: it gives up only when all frames are pinned.
pub select_victim_finds :
    (vm : Vm) (j : ℕ) (f : Frame)
    → IsScannable vm
    → get_elem? vm.frames j ≡ some f
    → f.pinned ≡ false
    → (i : ℕ) × (vm' : Vm) × (select_victim vm ≡ some (some i, vm'))
select_victim_finds vm j f s there free =
    let (p, paged) = s.paged j f there in
    rw (select_victim-loop vm (not_empty vm s)) (
      Loop-Finds j p (vm.pages p).va f (length vm.frames * 2) vm s
        (record { there = there; paged = paged; unpinned = free }) refl
        (ground (arith, in_table vm j f there, position-lt vm s)))
