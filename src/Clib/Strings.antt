-- ===== src/Clib/Strings.antt =====
-- pintos/lib/string.c: blocks of bytes and strings in a memory. NULL is 0. A loop up to the end of
-- a string takes fuel; `none` is a failed assertion or the end of the fuel.
pub mod Blocks
pub mod Text
pub mod Words
pub mod Tokens
pub mod Copies
pub mod Examples
use pintos_lab.Base.{
  ℕ, zero, suc, ◌+◌, ◌-◌, Bool, true, false, not, ◌&&◌, ◌||◌, Option, none, some, ltb, leb, ◌==◌,
  if◌then◌else◌, assert, ◌>>=◌, ◌>>◌,
}

abbrev pub Memory : Type 0
Memory = ℕ → ℕ

unfoldable pub store : ℕ → ℕ → Memory → Memory
store p value mem = λ a. if p == a then value else mem a

-- `while (size-- > 0) *dst++ = *src++;`
unfoldable pub copy_up : ℕ → ℕ → ℕ → Memory → Memory
copy_up zero dst src mem = mem
copy_up (suc size) dst src mem = copy_up size (dst + 1) (src + 1) (store dst (mem src) mem)

-- `while (size-- > 0) *--dst = *--src;`, from `dst + size` and `src + size` on
unfoldable pub copy_down : ℕ → ℕ → ℕ → Memory → Memory
copy_down zero dst src mem = mem
copy_down (suc size) dst src mem =
    copy_down size dst src (store (dst + size) (mem (src + size)) mem)

unfoldable pub memcpy : ℕ → ℕ → ℕ → Memory → Option (ℕ × Memory)
memcpy dst src size mem = do
  assert (not (dst == 0) || (size == 0))
  assert (not (src == 0) || (size == 0))
  some (dst, copy_up size dst src mem)

-- The pointer that is returned is the local variable, which the loop has moved.
unfoldable pub memmove : ℕ → ℕ → ℕ → Memory → Option (ℕ × Memory)
memmove dst src size mem = do
  assert (not (dst == 0) || (size == 0))
  assert (not (src == 0) || (size == 0))
  if ltb dst src
      then some (dst + size, copy_up size dst src mem)
      else some (dst, copy_down size dst src mem)

unfoldable pub set_up : ℕ → ℕ → ℕ → Memory → Memory
set_up zero dst value mem = mem
set_up (suc size) dst value mem = set_up size (dst + 1) value (store dst value mem)

unfoldable pub memset : ℕ → ℕ → ℕ → Memory → Option (ℕ × Memory)
memset dst value size mem = do
  assert (not (dst == 0) || (size == 0))
  some (dst, set_up size dst value mem)

-- A result that is negative, zero or positive.
pub data Sign : Type 0 where
  negative equal positive : Sign

unfoldable pub memcmp_loop : ℕ → ℕ → ℕ → Memory → Sign
memcmp_loop a b zero mem = equal
memcmp_loop a b (suc size) mem =
    let rest = memcmp_loop (a + 1) (b + 1) size mem in
    if not (mem a == mem b) then (if ltb (mem b) (mem a) then positive else negative) else rest

unfoldable pub memcmp : ℕ → ℕ → ℕ → Memory → Option Sign
memcmp a b size mem = do
  assert (not (a == 0) || (size == 0))
  assert (not (b == 0) || (size == 0))
  some (memcmp_loop a b size mem)

unfoldable pub strcmp_loop : ℕ → ℕ → ℕ → Memory → Option Sign
strcmp_loop zero a b mem = none
strcmp_loop (suc n) a b mem =
    let rest = strcmp_loop n (a + 1) (b + 1) mem in
    if not (mem a == 0) && (mem a == mem b)
    then rest
    else some (
        if ltb (mem a) (mem b) then negative else (if ltb (mem b) (mem a) then positive else equal))

unfoldable pub strcmp : ℕ → ℕ → ℕ → Memory → Option Sign
strcmp n a b mem = do assert (not (a == 0)); assert (not (b == 0)); strcmp_loop n a b mem

unfoldable pub memchr_loop : ℕ → ℕ → ℕ → Memory → ℕ
memchr_loop block ch zero mem = 0
memchr_loop block ch (suc size) mem =
    let rest = memchr_loop (block + 1) ch size mem in if mem block == ch then block else rest

unfoldable pub memchr : ℕ → ℕ → ℕ → Memory → Option ℕ
memchr block ch size mem = do
  assert (not (block == 0) || (size == 0))
  some (memchr_loop block ch size mem)

-- 0 for NULL
unfoldable pub strchr_loop : ℕ → ℕ → ℕ → Memory → Option ℕ
strchr_loop zero string c mem = none
strchr_loop (suc n) string c mem =
    let rest = strchr_loop n (string + 1) c mem in
    if mem string == c then some string else (if mem string == 0 then some 0 else rest)

unfoldable pub strchr : ℕ → ℕ → ℕ → Memory → Option ℕ
strchr n string c mem = do assert (not (string == 0)); strchr_loop n string c mem

-- The loops of `strspn` and `strcspn`; `m` is the fuel of `strchr`.
unfoldable pub spn_loop : Bool → ℕ → ℕ → ℕ → ℕ → ℕ → Memory → Option ℕ
spn_loop skipping zero m string set length mem = none
spn_loop skipping (suc n) m string set length mem =
    let c = mem (string + length) in
    let rest = spn_loop skipping n m string set (length + 1) mem in
    if c == 0 then some length else (do
      found ← strchr m set c mem
      if (if skipping then found == 0 else not (found == 0)) then some length else rest)

unfoldable pub strspn : ℕ → ℕ → ℕ → Memory → Option ℕ
strspn n string skip mem = spn_loop true n n string skip 0 mem

unfoldable pub strcspn : ℕ → ℕ → ℕ → Memory → Option ℕ
strcspn n string stop mem = spn_loop false n n string stop 0 mem

unfoldable pub strpbrk : ℕ → ℕ → ℕ → ℕ → Memory → Option ℕ
strpbrk zero m string stop mem = none
strpbrk (suc n) m string stop mem =
    let rest = strpbrk n m (string + 1) stop mem in
    if mem string == 0
    then some 0
    else (do found ← strchr m stop (mem string) mem; if not (found == 0) then some string else rest)

-- The loop of `strrchr`; `p` is the last place found, or 0.
unfoldable pub strrchr_loop : ℕ → ℕ → ℕ → ℕ → Memory → Option ℕ
strrchr_loop zero string c p mem = none
strrchr_loop (suc n) string c p mem =
    let rest = strrchr_loop n (string + 1) c (if mem string == c then string else p) mem in
    if mem string == 0 then some p else rest

unfoldable pub strlen_loop : ℕ → ℕ → Memory → Option ℕ
strlen_loop zero p mem = none
strlen_loop (suc n) p mem =
    let rest = strlen_loop n (p + 1) mem in if mem p == 0 then some p else rest

unfoldable pub strlen : ℕ → ℕ → Memory → Option ℕ
strlen n string mem = do assert (not (string == 0)); p ← strlen_loop n string mem; some (p - string)

-- `length` so far; the fuel is more than `maxlen`.
unfoldable pub strnlen_loop : ℕ → ℕ → ℕ → ℕ → Memory → Option ℕ
strnlen_loop zero string maxlen length mem = none
strnlen_loop (suc n) string maxlen length mem =
    let rest = strnlen_loop n string maxlen (length + 1) mem in
    if not (mem (string + length) == 0) && ltb length maxlen then rest else some length

unfoldable pub strnlen : ℕ → ℕ → Memory → Option ℕ
strnlen string maxlen mem = strnlen_loop (maxlen + 1) string maxlen 0 mem

-- The loop of `strstr`, with `n` places left from `i` on.
unfoldable pub strstr_loop : ℕ → ℕ → ℕ → ℕ → ℕ → Memory → Option ℕ
strstr_loop zero haystack needle needle_len i mem = some 0
strstr_loop (suc n) haystack needle needle_len i mem = do
  cmp ← memcmp (haystack + i) needle needle_len mem
  let rest = strstr_loop n haystack needle needle_len (i + 1) mem
  elim cmp [ equal ↦ some (haystack + i) | negative ↦ rest | positive ↦ rest ]

unfoldable pub strstr : ℕ → ℕ → ℕ → Memory → Option ℕ
strstr n haystack needle mem = do
  haystack_len ← strlen n haystack mem
  needle_len ← strlen n needle mem
  if leb needle_len haystack_len
      then strstr_loop (haystack_len - needle_len + 1) haystack needle needle_len 0 mem
      else some 0

unfoldable pub strlcpy : ℕ → ℕ → ℕ → ℕ → Memory → Option (ℕ × Memory)
strlcpy n dst src size mem = do
  assert (not (dst == 0))
  assert (not (src == 0))
  src_len ← strlen n src mem
  let dst_len = if ltb src_len (size - 1) then src_len else size - 1
  if ltb 0 size
      then (do (p, mem') ← memcpy dst src dst_len mem; some (src_len, store (dst + dst_len) 0 mem'))
      else some (src_len, mem)

unfoldable pub strlcat : ℕ → ℕ → ℕ → ℕ → Memory → Option (ℕ × Memory)
strlcat n dst src size mem = do
  assert (not (dst == 0))
  assert (not (src == 0))
  src_len ← strlen n src mem
  dst_len ← strlen n dst mem
  let room = size - dst_len - 1
  let copy_cnt = if ltb src_len room then src_len else room
  if ltb 0 size && ltb dst_len size
      then (do
        (p, mem') ← memcpy (dst + dst_len) src copy_cnt mem
        some (src_len + dst_len, store (dst + dst_len + copy_cnt) 0 mem'))
      else some (src_len + dst_len, mem)

-- The two loops of `strtok_r`: past the delimiters, 0 if the string ends there, and up to the next
-- one.
unfoldable pub skip_loop : ℕ → ℕ → ℕ → ℕ → Memory → Option (ℕ × Bool)
skip_loop zero m s delimiters mem = none
skip_loop (suc n) m s delimiters mem = do
  found ← strchr m delimiters (mem s) mem
  let rest = skip_loop n m (s + 1) delimiters mem
  if not (found == 0) then (if mem s == 0 then some (s, true) else rest) else some (s, false)

unfoldable pub token_loop : ℕ → ℕ → ℕ → ℕ → Memory → Option ℕ
token_loop zero m s delimiters mem = none
token_loop (suc n) m s delimiters mem = do
  found ← strchr m delimiters (mem s) mem
  let rest = token_loop n m (s + 1) delimiters mem
  if found == 0 then rest else some s

-- The token, or 0, the saved pointer, and the memory.
unfoldable pub strtok_r : ℕ → ℕ → ℕ → ℕ → Memory → Option (ℕ × ℕ × Memory)
strtok_r n s delimiters save_ptr mem = do
  assert (not (delimiters == 0))
  let start = if s == 0 then save_ptr else s
  assert (not (start == 0))
  (token, ended) ← skip_loop n n start delimiters mem
  let found = (do
    end ← token_loop n n token delimiters mem
    if not (mem end == 0) then some (token, end + 1, store end 0 mem) else some (token, end, mem))
  if ended then some (0, token, mem) else found
