-- ===== src/Str/Defs.antt =====
-- The functions of util/str/str.go. A map is an association list with distinct keys.
use Prim.Native.Nat.{Ordering}
use Prim.Native.String
use k_elda_archive.Base.{
  String, Bool, true, false, ◌==◌, List, [], ◌∷◌, none, some, ite, if◌then◌else◌, length, ltb, get,
  ℤ, pos, negsuc, str_discrete,
}

unfoldable pub slice_filter_out : List String → String → List String
unfolding str_discrete
slice_filter_out [] item = []
slice_filter_out (s ∷ slice) item =
    let rest = slice_filter_out slice item in ite (str_discrete s item) rest (s ∷ rest)

unfoldable pub slice_contains : List String → String → Bool
unfolding str_discrete
slice_contains [] item = false
slice_contains (s ∷ slice) item = ite (str_discrete s item) true (slice_contains slice item)

-- The loop of `SliceCmp`, over slices of one length: -1, 1 or 0.
unfoldable pub cmp_elements : List String → List String → ℤ
cmp_elements [] y = pos 0
cmp_elements (v ∷ x) [] = pos 0
cmp_elements (v ∷ x) (w ∷ y) =
    let rest = cmp_elements x y in
    elim (String.compare v w) [ Ordering.lt ↦ negsuc 0 | Ordering.eq ↦ rest | Ordering.gt ↦ pos 1 ]

unfoldable pub slice_cmp : List String → List String → ℤ
unfolding cmp_elements
slice_cmp x y =
    if ltb (length x) (length y)
    then negsuc 0
    else (if ltb (length y) (length x) then pos 1 else cmp_elements x y)

unfoldable pub is_zero : ℤ → Bool
is_zero (pos n) = n == 0
is_zero (negsuc n) = false

unfoldable pub slice_eq : List String → List String → Bool
unfolding slice_cmp is_zero
slice_eq x y = is_zero (slice_cmp x y)

-- The loop of `MapEq`: every entry of `x` is in `y`.
unfoldable pub entries_in : List (String × String) → List (String × String) → Bool
unfolding get str_discrete
entries_in [] y = true
entries_in ((k, v) ∷ x) y =
    let rest = entries_in x y in
    elim (get str_discrete k y) [
      | none ↦ false
      | some y_val ↦ ite (str_discrete v y_val) rest false
    ]

unfoldable pub map_eq : List (String × String) → List (String × String) → Bool
unfolding entries_in
map_eq x y = if length x == length y then entries_in x y else false
