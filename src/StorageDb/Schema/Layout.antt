-- ===== src/StorageDb/Schema/Layout.antt =====
-- schemaLayoutEqual decides whether two schemas lay out records alike.
use spangap_core.Base.{
  ℕ, ◌≡◌, refl, sym, ap, ◌∙◌, subst, ◌↔◌, inl, inr, Bool, true, false, ◌&&◌, List, [], ◌∷◌, arith,
  ◌==◌, Bool-cases, eq→==, ==_iff, eq_bytes,
}
use spangap_core.StorageDb.Schema.{SdbField, SdbSchema, fields_equal, schema_layout_equal}

pub eq_bytes_refl : (xs : List ℕ) → eq_bytes xs xs ≡ true
unfolding eq_bytes
eq_bytes_refl [] = refl
eq_bytes_refl (x ∷ xs) = rw (eq→== x x refl) (eq_bytes_refl xs)

both : (a b : Bool) → (a && b) ≡ true → (a ≡ true) × (b ≡ true)
both true b h = (refl, h)
both false b h = ground arith

pub eq_bytes-eq : (xs ys : List ℕ) → eq_bytes xs ys ≡ true → xs ≡ ys
unfolding eq_bytes
eq_bytes-eq [] [] h = refl
eq_bytes-eq [] (y ∷ ys) h = ground arith
eq_bytes-eq (x ∷ xs) [] h = ground arith
eq_bytes-eq (x ∷ xs) (y ∷ ys) h =
    let (a, b) = both (x == y) (eq_bytes xs ys) h in
    ap (◌∷ xs) ((==_iff x y).0 a) ∙ ap (y ∷◌) (eq_bytes-eq xs ys b)

-- What equals one of two strings that differ is not the other.
pub eq_bytes-differ :
    (k key other : List ℕ)
    → eq_bytes k key ≡ false
    → eq_bytes k other ≡ true
    → eq_bytes key other ≡ false
eq_bytes-differ k key other a b = elim (Bool-cases (eq_bytes key other)) [
  | inl c ↦
      let same : k ≡ key = eq_bytes-eq k other b ∙ sym (eq_bytes-eq key other c) in
      let clash : true ≡ false = sym (eq_bytes_refl k) ∙ (ap (eq_bytes k) same ∙ a) in
      ground (arith, clash)
  | inr c ↦ c
]

field_eq :
    (x y : SdbField) → x.kind ≡ y.kind → x.off ≡ y.off → x.width ≡ y.width → x.name ≡ y.name → x ≡ y
field_eq x y a b c d = λ i. record { name = d i; kind = a i; off = b i; width = c i }

fields_equal_refl : (xs : List SdbField) → fields_equal xs xs ≡ true
unfolding fields_equal
fields_equal_refl [] = refl
fields_equal_refl (x ∷ xs) = rw (
  eq→== x.kind x.kind refl,
  eq→== x.off x.off refl,
  eq→== x.width x.width refl,
  eq_bytes_refl x.name,
  fields_equal_refl xs,
)

fields_equal-eq : (xs ys : List SdbField) → fields_equal xs ys ≡ true → xs ≡ ys
unfolding fields_equal
fields_equal-eq [] [] h = refl
fields_equal-eq [] (y ∷ ys) h = ground arith
fields_equal-eq (x ∷ xs) [] h = ground arith
fields_equal-eq (x ∷ xs) (y ∷ ys) h =
    let (abcd, e) = both _ _ h in
    let (abc, d) = both _ _ abcd in
    let (ab, c) = both _ _ abc in
    let (a, b) = both _ _ ab in
    ap (◌∷ xs)
      (field_eq x y ((==_iff _ _).0 a) ((==_iff _ _).0 b) ((==_iff _ _).0 c) (eq_bytes-eq _ _ d))
    ∙ ap (y ∷◌) (fields_equal-eq xs ys e)

-- schemaLayoutEqual holds just when the header sizes and the field tables, names included, are the same.
pub schema_layout_equal_iff :
    (a b : SdbSchema)
    → (schema_layout_equal a b ≡ true) ↔ ((a.hdr_size ≡ b.hdr_size) × (a.fields ≡ b.fields))
unfolding schema_layout_equal
schema_layout_equal_iff a b = (there, back)
  where
    there :
        (a.hdr_size == b.hdr_size && fields_equal a.fields b.fields) ≡ true
        → (a.hdr_size ≡ b.hdr_size) × (a.fields ≡ b.fields)
    there h = let (s, f) = both _ _ h in ((==_iff _ _).0 s, fields_equal-eq _ _ f)

    back :
        (a.hdr_size ≡ b.hdr_size) × (a.fields ≡ b.fields)
        → (a.hdr_size == b.hdr_size && fields_equal a.fields b.fields) ≡ true
    back (s, f) = rw (eq→== a.hdr_size b.hdr_size s) (
        subst (λ (fs : List SdbField). fields_equal a.fields fs ≡ true) f
          (fields_equal_refl a.fields))
