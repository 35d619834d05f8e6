-- ===== src/Plic/Snapshot/Restore.antt =====
-- riscv-vm/src/devices/plic.rs: the loops that restore an array and its cache.
use bavy.Prelude.{
  ℕ, zero, suc, ◌+◌, ◌-◌, ◌≤◌, ◌<◌, ◌≡◌, refl, sym, ap, ◌∙◌, arith, min, List, [], ◌∷◌, length,
  get_or, set, length-set, get_or-set, get_or_ext, ltb, leb, if◌then◌else◌, ◌&&◌, ◌==◌,
}
use bavy.Plic.Snapshot.{restore_from, copy_from}

pub length-restore_from :
    (i : ℕ) (values array : List ℕ) → length (restore_from i values array) ≡ length array
unfolding restore_from
length-restore_from i [] array = refl
length-restore_from i (v ∷ values) array = ground (
  arith,
  length-restore_from (i + 1) values (if ltb i (length array) then set array i v else array),
  length-set array i v,
)

get_or-cons :
    (v : ℕ) (values : List ℕ) (k : ℕ)
    → get_or (v ∷ values) k 0 ≡ (if k == 0 then v else get_or values (k - 1) 0)
unfolding get_or
get_or-cons v values zero = refl
get_or-cons v values (suc k) = ground (arith, ap (λ n. get_or values n 0) (sub-one k))
  where
    sub-one : (k : ℕ) → k ≡ suc k - 1
    sub-one k = omega arith

get_or-beyond : (xs : List ℕ) (j : ℕ) → length xs ≤ j → get_or xs j 0 ≡ 0
unfolding get_or
get_or-beyond [] j h = refl
get_or-beyond (x ∷ xs) zero h = absurd (omega arith)
get_or-beyond (x ∷ xs) (suc j) h = get_or-beyond xs j (omega arith)

-- The element at j is the value for j if there is one and it fits, else as it was.
pub get_or-restore_from :
    (i : ℕ) (values array : List ℕ) (j : ℕ)
    → j < length array
    → get_or (restore_from i values array) j 0
      ≡ (if leb i j && ltb j (i + length values) then get_or values (j - i) 0 else get_or array j 0)
unfolding restore_from
get_or-restore_from i [] array j h = ground arith
get_or-restore_from i (v ∷ values) array j h =
    let next = if ltb i (length array) then set array i v else array in
    let shift : j - i - 1 ≡ j - (i + 1) = omega arith in
    ground (
      arith,
      get_or-restore_from (i + 1) values next j,
      length-set array i v,
      get_or-set array i j v 0,
      get_or-cons v values (j - i),
      ap (λ k. get_or values k 0) shift,
    )

length-copy_from :
    (left i : ℕ) (array cache : List ℕ) → length (copy_from left i array cache) ≡ length cache
unfolding copy_from
length-copy_from zero i array cache = refl
length-copy_from (suc left) i array cache =
    length-copy_from left (i + 1) array (set cache i (get_or array i 0))
    ∙ length-set cache i (get_or array i 0)

get_or-copy_from :
    (left i : ℕ) (array cache : List ℕ) (j : ℕ)
    → i + left ≤ length cache
    → get_or (copy_from left i array cache) j 0
      ≡ (if leb i j && ltb j (i + left) then get_or array j 0 else get_or cache j 0)
unfolding copy_from
get_or-copy_from zero i array cache j h = ground arith
get_or-copy_from (suc left) i array cache j h = ground (
  arith,
  get_or-copy_from left (i + 1) array (set cache i (get_or array i 0)) j,
  length-set cache i (get_or array i 0),
  get_or-set cache i j (get_or array i 0) 0,
)

-- After both loops the cache equals the restored array, if it did before.
pub copy_from-restore_from :
    (n : ℕ) (values array : List ℕ)
    → length array ≡ n
    → copy_from (min n (length values)) 0 (restore_from 0 values array) array
      ≡ restore_from 0 values array
copy_from-restore_from n values array e =
    let restored = restore_from 0 values array in
    let rounds : ℕ = min n (length values) in
    get_or_ext 0 (copy_from rounds 0 restored array) restored
      (length-copy_from rounds 0 restored array ∙ sym (length-restore_from 0 values array))
      λ j. ground (
        arith,
        get_or-copy_from rounds 0 restored array j,
        get_or-restore_from 0 values array j,
        get_or-beyond array j,
        get_or-beyond restored j,
        length-restore_from 0 values array,
      )

-- Restoring all the values of an array of the same length gives those values.
pub restore_from_all :
    (values array : List ℕ) → length values ≡ length array → restore_from 0 values array ≡ values
restore_from_all values array e =
    get_or_ext 0 (restore_from 0 values array) values (length-restore_from 0 values array ∙ sym e)
      λ j. ground (
        arith,
        get_or-restore_from 0 values array j,
        get_or-beyond values j,
        get_or-beyond (restore_from 0 values array) j,
        length-restore_from 0 values array,
        ap (λ k. get_or values k 0) (minus-zero j),
      )
  where
    minus-zero : (j : ℕ) → j - 0 ≡ j
    minus-zero j = omega arith
