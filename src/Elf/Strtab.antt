-- ===== src/Elf/Strtab.antt =====
-- String tables of elf.c: what stands at the offsets that `add_str` returns, and their length.
use symbi_os.Base.{
  ◌∙◌, ap, ℕ, ◌+◌, ◌≤◌, ◌<◌, Bool, true, false, ◌||◌, ltb, ◌≡◌, refl, ◌≢◌, List, [], ◌∷◌, ◌++◌,
  arith, Bytes,
}
use mathlib.Core.List.{append_assoc, append-nil}
use symbi_os.Base.Lists.{length, length-append, drop}
use symbi_os.Elf.{add_str, StrTab, add_strs, strs_len, until_null}

-- No null byte inside.
abbrev pub IsCString : Bytes → Type 0
IsCString [] = Unit
IsCString (c ∷ cs) = (c ≢ 0) × IsCString cs

abbrev pub All {ℓ} : {A : Type 0} → (A → Type ℓ) → List A → Type ℓ
All P [] = Unit
All P (x ∷ xs) = P x × All P xs

pub drop-append : (xs ys : Bytes) → drop (length xs) (xs ++ ys) ≡ ys
drop-append [] ys = refl
drop-append (x ∷ xs) ys = drop-append xs ys

pub until_null-append : (s rest : Bytes) → IsCString s → until_null (s ++ 0 ∷ rest) ≡ s
until_null-append [] rest h = refl
until_null-append (c ∷ s) rest h = ground (arith, until_null-append s rest h.1)

-- All that a table will hold: what it holds, and then the strings, each with its null byte.
unfoldable pub joined : List Bytes → Bytes
joined [] = []
joined (s ∷ ss) = s ++ (0 ∷ joined ss)

pub add_strs-buf : (st : StrTab) (ss : List Bytes) → (add_strs st ss).1.buf ≡ st.buf ++ joined ss
unfolding add_strs add_str joined
add_strs-buf st [] = rw append-nil
add_strs-buf st (s ∷ ss) = rw (add_strs-buf (add_str st s).1 ss) (simp append_assoc)

pub add_strs-cap : (st : StrTab) (ss : List Bytes) → (add_strs st ss).1.cap ≡ st.cap
unfolding add_strs add_str
add_strs-cap st [] = refl
add_strs-cap st (s ∷ ss) = add_strs-cap (add_str st s).1 ss

pub length-joined : (ss : List Bytes) → length (joined ss) ≡ strs_len ss
unfolding joined strs_len
length-joined [] = refl
length-joined (s ∷ ss) = omega (arith, length-append s (0 ∷ joined ss), length-joined ss)

-- The string at each offset is the one that was added there.
abbrev pub AtOffsets : Bytes → List ℕ → List Bytes → Type 0
AtOffsets buf [] [] = Unit
AtOffsets buf (o ∷ os) (s ∷ ss) = (until_null (drop o buf) ≡ s) × AtOffsets buf os ss
AtOffsets buf _ _ = ⊥

at_offsets :
    (st : StrTab) (ss : List Bytes) (buf : Bytes)
    → All IsCString ss
    → buf ≡ st.buf ++ joined ss
    → AtOffsets buf (add_strs st ss).0 ss
unfolding add_strs add_str joined
at_offsets st [] buf h e = tt
at_offsets st (s ∷ ss) buf h e = (
  rw (e, drop-append st.buf (s ++ (0 ∷ joined ss))) (until_null-append s (joined ss) h.0),
  at_offsets (add_str st s).1 ss buf h.1 (e ∙ simp append_assoc),
)

or_false : (b : Bool) → b || false ≡ b
or_false true = refl
or_false false = refl

-- Where the strings with their null bytes fit in, nothing is written behind the allocation.
pub add_strs_fit :
    (st : StrTab) (ss : List Bytes)
    → length st.buf + strs_len ss ≤ st.cap
    → (add_strs st ss).1.overrun ≡ st.overrun
unfolding add_strs add_str strs_len
add_strs_fit st [] fit = refl
add_strs_fit st (s ∷ ss) fit =
    let grown = length-append st.buf (s ++ 0 ∷ []) in
    let with_null = length-append s (0 ∷ []) in
    let inside : ltb st.cap (length st.buf + (length s + 1)) ≡ false = ground (arith, fit) in
    let unchanged : st.overrun || ltb st.cap (length st.buf + (length s + 1)) ≡ st.overrun =
      rw inside (or_false st.overrun) in
    add_strs_fit (add_str st s).1 ss (omega (arith, fit, grown, with_null)) ∙ unchanged

-- The offsets are below any bound on the length of the final table.
pub add_strs_below :
    (bound : ℕ) (st : StrTab) (ss : List Bytes)
    → length st.buf + strs_len ss ≤ bound
    → All (λ o. o < bound) (add_strs st ss).0
unfolding add_strs add_str strs_len
add_strs_below bound st [] fit = tt
add_strs_below bound st (s ∷ ss) fit =
    let grown = length-append st.buf (s ++ 0 ∷ []) in
    let with_null = length-append s (0 ∷ []) in
    (
      omega (arith, fit),
      add_strs_below bound (add_str st s).1 ss (omega (arith, fit, grown, with_null)),
    )

-- `add_str` for each of some strings without null bytes that fit in the allocation, each with its
-- null byte, writes nothing behind the allocation, and gives offsets at which the final table holds
-- those strings; the table is longer by `strlen + 1` for each, and its old bytes stay.
pub add_strs-AtOffsets :
    (st : StrTab) (ss : List Bytes)
    → All IsCString ss
    → length st.buf + strs_len ss ≤ st.cap
    → AtOffsets (add_strs st ss).1.buf (add_strs st ss).0 ss
      × (length (add_strs st ss).1.buf ≡ length st.buf + strs_len ss)
      × ((add_strs st ss).1.buf ≡ st.buf ++ joined ss)
      × ((add_strs st ss).1.overrun ≡ st.overrun)
add_strs-AtOffsets st ss h fit = (
  at_offsets st ss _ h (add_strs-buf st ss),
  omega (arith, ap length (add_strs-buf st ss), length-append st.buf (joined ss), length-joined ss),
  add_strs-buf st ss,
  add_strs_fit st ss fit,
)
