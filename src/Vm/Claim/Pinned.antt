-- ===== src/Vm/Claim/Pinned.antt =====
-- A pinned page is never claimed.
use pintos_lab.Base.{ℕ, ◌≡◌, true, false, some, arith}
use pintos_lab.Vm.State.{Vm}
use pintos_lab.Vm.Evict.{Supply}
use pintos_lab.Vm.Claim.{Loader, vm_do_claim_page}

pub claim_pinned :
    (loader : Loader) (thread : ℕ) (supply : Supply) (p : ℕ) (vm : Vm)
    → (vm.pages p).pinned ≡ true
    → vm_do_claim_page loader thread supply (some p) vm ≡ some (false, vm)
unfolding vm_do_claim_page
claim_pinned loader thread supply p vm h = ground (arith, h)
