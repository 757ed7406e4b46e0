-- ===== src/Process/Syscall/Pages.antt =====
-- The loops over the pages of a buffer visit each page from its first to its last, and no other.
use pintos_lab.Base.{
  ℕ, zero, suc, ◌+◌, ◌-◌, ◌*◌, ◌/◌, ◌%◌, ◌^◌, ◌≤◌, ◌<◌, ◌≡◌, inl, inr, ltb, if◌then◌else◌, arith,
  Bool-cases,
}
use pintos_lab.Process.Fault.{phys_base}
use pintos_lab.Process.Syscall.{
  World, pin_pages, unpin_pages, preload_and_pin_pages, unpin_preloaded_pages,
}

-- An action on `n` pages in order, from page number `page` on.
unfoldable pub each_page : {W : Type 0} → (ℕ → W → W) → ℕ → ℕ → W → W
each_page act zero page w = w
each_page act (suc n) page w = each_page act n (page + 1) (act (page * 4096) w)

-- How many pages there are from `page` on that begin below `end`.
abbrev pub pages_below : ℕ → ℕ → ℕ
pages_below end page = (end + 4095) / 4096 - page

pages_below_end : (end page : ℕ) → end ≤ page * 4096 → pages_below end page ≡ 0
pages_below_end end page le = omega arith

pages_below_next :
    (end page : ℕ) → page * 4096 < end → pages_below end page ≡ suc (pages_below end (page + 1))
pages_below_next end page lt = omega arith

next_page :
    (end page : ℕ)
    → end ≤ phys_base
    → page * 4096 < end
    → (page * 4096 + 4096) % 2 ^ 32 ≡ (page + 1) * 4096
next_page end page le lt = omega arith

wrapped : (end : ℕ) → end ≤ phys_base → end % 2 ^ 32 ≡ end
wrapped end le = omega arith

module _ {W : Type 0} (world : World W) where
  open world use {mapped, load_page, pin_page, unpin_page}

  -- Loads a page that is not mapped, and pins it.
  pub load_and_pin : ℕ → W → W
  load_and_pin upage w = pin_page upage (if mapped upage w then w else load_page upage w)

  unpin_pages_lem :
      (n page end : ℕ) (w : W)
      → end ≤ phys_base
      → end ≤ (page + n) * 4096
      → unpin_pages world n (page * 4096) end w ≡ each_page unpin_page (pages_below end page) page w
  unfolding unpin_pages each_page
  unpin_pages_lem zero page end w user le = rw (pages_below_end end page (omega arith))
  unpin_pages_lem (suc n) page end w user le = elim (Bool-cases (ltb (page * 4096) end)) [
    | inl t ↦
        rw (unpin_pages, t)
          (rw (pages_below_next end page (ground arith)) (
            rw (next_page end page user (ground arith))
              (unpin_pages_lem n (page + 1) end (unpin_page (page * 4096) w) user (omega arith))))
    | inr t ↦ rw (unpin_pages, t) (rw (pages_below_end end page (ground arith)))
  ]

  pin_pages_lem :
      (n page end : ℕ) (w : W)
      → end ≤ phys_base
      → end ≤ (page + n) * 4096
      → pin_pages world n (page * 4096) end w ≡ each_page load_and_pin (pages_below end page) page w
  unfolding pin_pages each_page load_and_pin
  pin_pages_lem zero page end w user le = rw (pages_below_end end page (omega arith))
  pin_pages_lem (suc n) page end w user le = elim (Bool-cases (ltb (page * 4096) end)) [
    | inl t ↦
        rw (pin_pages, t)
          (rw (pages_below_next end page (ground arith)) (
            rw (next_page end page user (ground arith))
              (pin_pages_lem n (page + 1) end (load_and_pin (page * 4096) w) user (omega arith))))
    | inr t ↦ rw (pin_pages, t) (rw (pages_below_end end page (ground arith)))
  ]

  -- For a buffer that ends at most at `PHYS_BASE`, `preload_and_pin_pages` loads and pins, and
  -- `unpin_preloaded_pages` unpins, in order, each page that begins below the buffer's end, from
  -- the page of its first byte on: the rounds suffice and the addresses do not wrap.
  pub preload_each_page :
      (addr size : ℕ) (w : W)
      → addr + size ≤ phys_base
      → (preload_and_pin_pages world addr size w
          ≡ each_page load_and_pin (pages_below (addr + size) (addr / 4096)) (addr / 4096) w)
        × (unpin_preloaded_pages world addr size w
            ≡ each_page unpin_page (pages_below (addr + size) (addr / 4096)) (addr / 4096) w)
  unfolding preload_and_pin_pages unpin_preloaded_pages
  preload_each_page addr size w user =
      let whole = wrapped (addr + size) user in
      (
        rw whole (pin_pages_lem (size / 4096 + 2) (addr / 4096) (addr + size) w user (omega arith)),
        rw whole
            (unpin_pages_lem (size / 4096 + 2) (addr / 4096) (addr + size) w user (omega arith)),
      )
