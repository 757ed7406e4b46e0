-- ===== src/Vm/Clock/Step.antt =====
-- One round of the clock.
use pintos_lab.Base.{
  ℕ, ◌+◌, ◌<◌, ◌≡◌, ◌⊎◌, refl, true, false, Option, none, some, ◌==◌, if◌then◌else◌, arith, length,
  get_elem?, Bool-cases, inl, inr, subst, sym, ◌∙◌, get_elem?-some,
}
use pintos_lab.Vm.State.{Pte, Frame, Hand, at_end, at, dangling, Vm}
use pintos_lab.Vm.Clock.{is_accessed, set_accessed, hand_index, hand_next, examine, clock_step}

-- Where the hand looks next.
abbrev pub position : Hand → ℕ
position at_end = 0
position (at i) = i
position dangling = 0

-- The hand points into a list of `n`, or at its end.
abbrev pub HandIsIn : ℕ → Hand → Type 0
HandIsIn n at_end = 0 < n
HandIsIn n (at i) = i < n
HandIsIn n dangling = ⊥

-- The table is not empty, the hand points into it, and every frame in it has a page.
pub record IsScannable (vm : Vm) : Type 0 where
  pub hand_in : HandIsIn (length vm.frames) vm.hand
  pub paged : (i : ℕ) (f : Frame) → get_elem? vm.frames i ≡ some f → (p : ℕ) × (f.page ≡ some p)

-- An entry that is the same, or the same but for its accessed bit, which is clear.
abbrev pub SameOrCleared : Option Pte → Option Pte → Type 0
SameOrCleared old new =
    (new ≡ old) ⊎ ((e : Pte) × (old ≡ some e) × (new ≡ some (record e { accessed = false })))

-- `vm'` is `vm` with the hand moved on and accessed bits cleared.
pub record IsSwept (vm vm' : Vm) : Type 0 where
  pub frames : vm'.frames ≡ vm.frames
  pub pages : vm'.pages ≡ vm.pages
  pub memory : vm'.memory ≡ vm.memory
  pub swap : vm'.swap ≡ vm.swap
  pub only_cleared : (o va : ℕ) → SameOrCleared (vm.ptes o va) (vm'.ptes o va)

pub is_accessed-set_accessed :
    (vm : Vm) (o va o' va' : ℕ)
    → is_accessed (set_accessed vm o va false) o' va' ≡ (
        if o == o'
        then (if va == va' then false else is_accessed vm o' va')
        else is_accessed vm o' va')
unfolding is_accessed set_accessed
is_accessed-set_accessed vm o va o' va' = ground arith

abbrev pub moved : Vm → ℕ → Vm
moved vm i = record vm { hand = hand_next (length vm.frames) i }

-- A round at a frame, by its pinned flag and its accessed bit.
module _ (vm : Vm) (i p : ℕ) (f : Frame) (paged : f.page ≡ some p) where
  examine_pinned : f.pinned ≡ true → examine vm i f ≡ some (none, vm)
  unfolding examine
  examine_pinned h = ground arith

  examine_accessed :
      f.pinned ≡ false
      → is_accessed vm f.owner (vm.pages p).va ≡ true
      → examine vm i f ≡ some (none, set_accessed vm f.owner (vm.pages p).va false)
  unfolding examine
  examine_accessed h k = ground arith

  examine_victim :
      f.pinned ≡ false
      → is_accessed vm f.owner (vm.pages p).va ≡ false
      → examine vm i f ≡ some (some i, vm)
  unfolding examine
  examine_victim h k = ground arith

clock_step-examine :
    (vm : Vm) (i : ℕ) (f : Frame)
    → hand_index vm.hand ≡ some i
    → get_elem? vm.frames i ≡ some f
    → clock_step vm ≡ examine (moved vm i) i f
unfolding clock_step
clock_step-examine vm i f e g = ground arith

-- What the hand sees: an index in the table, with its frame and that frame's page.
pub seen :
    (vm : Vm)
    → IsScannable vm
    → (i : ℕ) × (f : Frame) × (p : ℕ) × (hand_index vm.hand ≡ some i)
      × (i ≡ position vm.hand)
      × (i < length vm.frames)
      × (get_elem? vm.frames i ≡ some f)
      × (f.page ≡ some p)
seen vm s =
    let (i, e, q, l) = sight (length vm.frames) vm.hand s.hand_in in
    let (f, g) = get_elem?-some vm.frames i l in
    let (p, h) = s.paged i f g in (i, f, p, e, q, l, g, h)
  where
    sight :
        (n : ℕ) (h : Hand)
        → HandIsIn n h
        → (i : ℕ) × (hand_index h ≡ some i) × (i ≡ position h) × (i < n)
    sight n at_end k = (0, refl, refl, k)
    sight n (at i) k = (i, refl, refl, k)
    sight n dangling k = elim k [ ]

hand_next-HandIsIn : (n i : ℕ) → i < n → HandIsIn n (hand_next n i)
hand_next-HandIsIn n i h = elim (Bool-cases (i + 1 == n)) [
  | inl e ↦ rw e (omega arith)
  | inr e ↦ rw e (ground arith)
]

pub moved-IsScannable :
    (vm : Vm) (i : ℕ) → IsScannable vm → i < length vm.frames → IsScannable (moved vm i)
moved-IsScannable vm i s h = record {
  hand_in = hand_next-HandIsIn (length vm.frames) i h;
  paged = s.paged;
}

pub set_accessed-IsScannable :
    (vm : Vm) (o va : ℕ) → IsScannable vm → IsScannable (set_accessed vm o va false)
unfolding set_accessed
set_accessed-IsScannable vm o va s = record { hand_in = s.hand_in; paged = s.paged }

-- The three ways in which a round ends.
pub data Round (vm : Vm) : Option (Option ℕ × Vm) → Type 0 where
  skipped :
      (i : ℕ) (f : Frame)
      → i ≡ position vm.hand
      → get_elem? vm.frames i ≡ some f
      → f.pinned ≡ true
      → Round vm (some (none, moved vm i))
  cleared :
      (i p : ℕ) (f : Frame)
      → i ≡ position vm.hand
      → get_elem? vm.frames i ≡ some f
      → f.page ≡ some p
      → f.pinned ≡ false
      → is_accessed vm f.owner (vm.pages p).va ≡ true
      → Round vm (some (none, set_accessed (moved vm i) f.owner (vm.pages p).va false))
  found :
      (i p : ℕ) (f : Frame)
      → i ≡ position vm.hand
      → get_elem? vm.frames i ≡ some f
      → f.page ≡ some p
      → f.pinned ≡ false
      → is_accessed vm f.owner (vm.pages p).va ≡ false
      → Round vm (some (some i, moved vm i))

pub clock_step-Round : (vm : Vm) → IsScannable vm → Round vm (clock_step vm)
unfolding is_accessed
clock_step-Round vm s =
    let (i, f, p, e, q, l, g, h) = seen vm s in
    let step = clock_step-examine vm i f e g in
    elim (Bool-cases f.pinned) [
      | inl pin ↦
          subst (Round vm) (sym (step ∙ examine_pinned (moved vm i) i p f h pin))
            (skipped i f q g pin)
      | inr pin ↦ elim (Bool-cases (is_accessed vm f.owner (vm.pages p).va)) [
        | inl acc ↦
            subst (Round vm) (sym (step ∙ examine_accessed (moved vm i) i p f h pin acc))
              (cleared i p f q g h pin acc)
        | inr acc ↦
            subst (Round vm) (sym (step ∙ examine_victim (moved vm i) i p f h pin acc))
              (found i p f q g h pin acc)
      ]
    ]
