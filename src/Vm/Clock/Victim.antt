-- ===== src/Vm/Clock/Victim.antt =====
-- What `select_victim` returns, and that it finds a victim whenever some frame is not pinned.
use pintos_lab.Base.{
  ℕ, zero, suc, ◌*◌, ◌<◌, ◌≡◌, refl, false, Option, none, some, ◌==◌, arith, length, get_elem?, ◌∙◌,
  sym, ap, ◌&&◌, Option-cases, lt-of-get_elem?, Bool-cases, ==_iff, inl, inr,
}
use pintos_lab.Vm.State.{Pte, Frame, Vm, Hand, at_end, at, dangling}
use pintos_lab.Vm.Clock.{is_accessed, set_accessed, clock_step, clock_loop, select_victim}
use pintos_lab.Vm.Clock.Step.{
  HandIsIn, IsScannable, SameOrCleared, IsSwept, moved, moved-IsScannable, set_accessed-IsScannable,
  Round, skipped, cleared, found, clock_step-Round,
}

pub loop_next :
    (n : ℕ) (vm vm' : Vm)
    → clock_step vm ≡ some (none, vm')
    → clock_loop (suc n) vm ≡ clock_loop n vm'
unfolding clock_loop
loop_next n vm vm' e = ground (arith, e)

pub loop_found :
    (n : ℕ) (vm vm' : Vm) (i : ℕ)
    → clock_step vm ≡ some (some i, vm')
    → clock_loop (suc n) vm ≡ some (some i, vm')
unfolding clock_loop
loop_found n vm vm' i e = ground (arith, e)

pub moved-accessed : (vm : Vm) (i o va : ℕ) → is_accessed (moved vm i) o va ≡ is_accessed vm o va
unfolding is_accessed
moved-accessed vm i o va = refl

SameOrCleared-trans :
    (a b c : Option Pte) → SameOrCleared a b → SameOrCleared b c → SameOrCleared a c
SameOrCleared-trans a b c (inl h) (inl k) = inl (k ∙ h)
SameOrCleared-trans a b c (inl h) (inr (e, k, m)) = inr (e, sym h ∙ k, m)
SameOrCleared-trans a b c (inr (e, h, m)) (inl k) = inr (e, h, k ∙ m)
SameOrCleared-trans a b c (inr (e, h, m)) (inr (e', k, n)) =
    let same : record e { accessed = false } ≡ e' = ground (arith, m, k) in
    inr (e, h, n ∙ ap (λ (x : Pte). some (record x { accessed = false })) (sym same))

entry_cleared :
    (vm : Vm) (i o va o' va' : ℕ)
    → SameOrCleared (vm.ptes o' va') ((set_accessed (moved vm i) o va false).ptes o' va')
unfolding set_accessed
entry_cleared vm i o va o' va' = elim (Bool-cases (o == o' && va == va')) [
  | inr other ↦ inl (ground (arith, other))
  | inl here ↦
      (let owner : o ≡ o' = ground (arith, here) in
        let page : va ≡ va' = ground (arith, here) in
        elim (Option-cases (vm.ptes o va)) [
          | inl none_there ↦ inl (ground (arith, here, none_there, owner, page))
          | inr (e, there) ↦
              inr (e, ground (arith, there, owner, page), ground (arith, here, there))
        ])
]

cleared-IsSwept : (vm : Vm) (i o va : ℕ) → IsSwept vm (set_accessed (moved vm i) o va false)
cleared-IsSwept vm i o va = record {
  frames = unfold set_accessed in refl;
  pages = unfold set_accessed in refl;
  memory = unfold set_accessed in refl;
  swap = unfold set_accessed in refl;
  only_cleared = λ o' va'. entry_cleared vm i o va o' va';
}

moved-IsSwept : (vm : Vm) (i : ℕ) → IsSwept vm (moved vm i)
moved-IsSwept vm i = record {
  frames = refl;
  pages = refl;
  memory = refl;
  swap = refl;
  only_cleared = λ o' va'. inl refl;
}

IsSwept-trans : (a b c : Vm) → IsSwept a b → IsSwept b c → IsSwept a c
IsSwept-trans a b c p q = record {
  frames = q.frames ∙ p.frames;
  pages = q.pages ∙ p.pages;
  memory = q.memory ∙ p.memory;
  swap = q.swap ∙ p.swap;
  only_cleared = λ o va.
      SameOrCleared-trans (a.ptes o va) (b.ptes o va) (c.ptes o va) (p.only_cleared o va)
        (q.only_cleared o va);
}

-- The frame at the index may be evicted: it is not pinned, and its accessed bit is clear.
abbrev pub IsVictim : Vm → Option ℕ → Type 0
IsVictim vm none = Unit
IsVictim vm (some i) =
    (f : Frame) × (p : ℕ) × (get_elem? vm.frames i ≡ some f)
    × (f.page ≡ some p)
    × (f.pinned ≡ false)
    × (is_accessed vm f.owner (vm.pages p).va ≡ false)

-- The clock ends without a fault, has changed nothing but the hand and accessed bits, and its
-- answer is a victim.
abbrev pub Chooses : Vm → Option (Option ℕ × Vm) → Type 0
Chooses vm r =
    (v : Option ℕ) × (vm' : Vm) × (r ≡ some (v, vm'))
    × IsSwept vm vm'
    × IsScannable vm'
    × IsVictim vm' v

-- Where a round goes on, the state after it.
Chooses-after :
    (vm vm' : Vm) (r : Option (Option ℕ × Vm)) → IsSwept vm vm' → Chooses vm' r → Chooses vm r
Chooses-after vm vm' r w (v, vm'', e, w', s, h) = (v, vm'', e, IsSwept-trans vm vm' vm'' w w', s, h)

pub in_table : (vm : Vm) (i : ℕ) (f : Frame) → get_elem? vm.frames i ≡ some f → i < length vm.frames
in_table vm i f e = lt-of-get_elem? vm.frames i f e

Round-Chooses :
    (n : ℕ) (vm : Vm)
    → ((vm' : Vm) → IsScannable vm' → Chooses vm' (clock_loop n vm'))
    → IsScannable vm
    → (r : Option (Option ℕ × Vm)) → Round vm r
    → clock_step vm ≡ r
    → Chooses vm (clock_loop (suc n) vm)
Round-Chooses n vm rec s _ (skipped i f q g pin) e = rw (loop_next n vm (moved vm i) e) (
    Chooses-after vm (moved vm i) _ (moved-IsSwept vm i)
      (rec (moved vm i) (moved-IsScannable vm i s (in_table vm i f g))))
Round-Chooses n vm rec s _ (cleared i p f q g h pin acc) e =
    let vm' = set_accessed (moved vm i) f.owner (vm.pages p).va false in
    rw (loop_next n vm vm' e) (
      Chooses-after vm vm' _ (cleared-IsSwept vm i f.owner (vm.pages p).va) (
        rec vm' (
          set_accessed-IsScannable (moved vm i) f.owner (vm.pages p).va
            (moved-IsScannable vm i s (in_table vm i f g)))))
Round-Chooses n vm rec s _ (found i p f q g h pin acc) e = (
  some i,
  moved vm i,
  loop_found n vm (moved vm i) i e,
  moved-IsSwept vm i,
  moved-IsScannable vm i s (in_table vm i f g),
  (f, p, g, h, pin, moved-accessed vm i f.owner (vm.pages p).va ∙ acc),
)

clock_loop-Chooses : (n : ℕ) (vm : Vm) → IsScannable vm → Chooses vm (clock_loop n vm)
clock_loop-Chooses zero vm s = (
  none,
  vm,
  unfold clock_loop in refl,
  record {
    frames = refl;
    pages = refl;
    memory = refl;
    swap = refl;
    only_cleared = λ o va. inl refl;
  },
  s,
  tt,
)
clock_loop-Chooses (suc n) vm s =
    Round-Chooses n vm (clock_loop-Chooses n) s (clock_step vm) (clock_step-Round vm s) refl

pub not_empty : (vm : Vm) → IsScannable vm → 0 < length vm.frames
not_empty vm s = from_hand (length vm.frames) vm.hand s.hand_in
  where
    from_hand : (n : ℕ) (h : Hand) → HandIsIn n h → 0 < n
    from_hand n at_end k = k
    from_hand n (at i) k = omega arith
    from_hand n dangling k = elim k [ ]

pub select_victim-loop :
    (vm : Vm) → 0 < length vm.frames → select_victim vm ≡ clock_loop (length vm.frames * 2) vm
unfolding select_victim
select_victim-loop vm h = elim (Bool-cases (length vm.frames == 0)) [
  | inl z ↦ absurd (omega (arith, (==_iff (length vm.frames) 0).0 z))
  | inr z ↦ rw z
]

-- `select_victim` on a table that is not empty and whose frames all have pages ends without a
-- fault. It moves the hand and clears accessed bits, and changes nothing else; if it names a
-- frame, that frame is not pinned and its accessed bit is clear.
pub select_victim-Chooses : (vm : Vm) → IsScannable vm → Chooses vm (select_victim vm)
select_victim-Chooses vm s =
    rw (select_victim-loop vm (not_empty vm s)) (clock_loop-Chooses (length vm.frames * 2) vm s)
