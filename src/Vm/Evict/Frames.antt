-- ===== src/Vm/Evict/Frames.antt =====
-- A frame that has just been put at the end of the table is the one that its address and its page
-- find.
use pintos_lab.Base.{
  ℕ, ◌≡◌, refl, Bool, false, Option, none, some, List, [], ◌∷◌, ◌++◌, ◌==◌, arith, Bool-cases, inl,
  inr, suc, length,
}
use mathlib.Core.Option
use pintos_lab.Vm.State.{Frame, frame_at}
use pintos_lab.Vm.Frame.{set_pinned, find_kva, remove_at}
use pintos_lab.Vm.Claim.{set_owner}

-- The first of two frames was not the one that was looked for.
frame_at_tail :
    (f : Frame) (fs : List Frame) (a : ℕ)
    → frame_at (f ∷ fs) a ≡ none
    → ((f.addr == a) ≡ false) × (frame_at fs a ≡ none)
unfolding frame_at
frame_at_tail f fs a e = ground arith

find_kva_tail :
    (f : Frame) (fs : List Frame) (kva : ℕ)
    → find_kva (f ∷ fs) kva ≡ none
    → ((f.kva == kva) ≡ false) × (find_kva fs kva ≡ none)
unfolding find_kva
find_kva_tail f fs kva e = elim (Bool-cases (f.kva == kva)) [
  | inl t ↦ ground (arith, e, t)
  | inr n ↦ (n, map_none (find_kva fs kva) (ground (arith, e, n)))
]
  where
    map_none : (o : Option ℕ) → Option.map suc o ≡ none → o ≡ none
    map_none none h = refl
    map_none (some i) h = cc

pub frame_at-append :
    (fs : List Frame) (f : Frame)
    → frame_at fs f.addr ≡ none
    → frame_at (fs ++ (f ∷ [])) f.addr ≡ some f
unfolding frame_at
frame_at-append [] f e = ground arith
frame_at-append (g ∷ fs) f e =
    let (n, rest) = frame_at_tail g fs f.addr e in rw n (frame_at-append fs f rest)

pub set_owner-append :
    (fs : List Frame) (f : Frame) (p thread : ℕ)
    → frame_at fs f.addr ≡ none
    → set_owner f.addr p thread (fs ++ (f ∷ []))
      ≡ fs ++ (record f { page = some p; owner = thread } ∷ [])
unfolding set_owner
set_owner-append [] f p thread e = ground arith
set_owner-append (g ∷ fs) f p thread e =
    let (n, rest) = frame_at_tail g fs f.addr e in rw n (rw (set_owner-append fs f p thread rest))

pub set_pinned-append :
    (b : Bool) (fs : List Frame) (f : Frame)
    → find_kva fs f.kva ≡ none
    → set_pinned b (fs ++ (f ∷ [])) f.kva ≡ fs ++ (record f { pinned = b } ∷ [])
unfolding set_pinned
set_pinned-append b [] f e = ground arith
set_pinned-append b (g ∷ fs) f e =
    let (n, rest) = find_kva_tail g fs f.kva e in rw n (rw (set_pinned-append b fs f rest))

pub find_kva-append :
    (fs : List Frame) (f : Frame)
    → find_kva fs f.kva ≡ none
    → find_kva (fs ++ (f ∷ [])) f.kva ≡ some (length fs)
unfolding find_kva
find_kva-append [] f e = ground arith
find_kva-append (g ∷ fs) f e =
    let (n, rest) = find_kva_tail g fs f.kva e in rw n (rw (find_kva-append fs f rest))

pub remove_at-append : (fs : List Frame) (f : Frame) → remove_at (fs ++ (f ∷ [])) (length fs) ≡ fs
remove_at-append [] f = refl
remove_at-append (g ∷ fs) f = rw (remove_at-append fs f)
