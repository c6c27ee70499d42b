-- ===== src/Subscript/Text/Order.antt =====
-- The labels that `from_string` gives to characters: from `a` on, by first occurrence.
use hypertrie.Common.{
  Bool-cases, List, [], ap, arith, contains, contains-append, if◌then◌else◌, inl, inr, length,
  length-append, map, none, refl, some, suc, true, ℕ, ◌++◌, ◌+◌, ◌<◌, ◌==◌, ◌∙◌, ◌∷◌, ◌≡◌, ◌≤◌,
}
use hypertrie.Common.Assoc.{find, find-insert_or_assign}
use hypertrie.Subscript.{Label, OperandSc, byte}
use hypertrie.Subscript.Text.{Labels, map_char, no_labels}

abbrev pub index_of : List ℕ → ℕ → ℕ
index_of [] c = 0
index_of (x ∷ xs) c = if x == c then 0 else suc (index_of xs c)

-- The characters in the order of their first occurrence, after those of `seen`.
abbrev pub append_new : List ℕ → ℕ → List ℕ
append_new seen c = if contains seen c then seen else seen ++ (c ∷ [])

abbrev pub extend : List ℕ → OperandSc → List ℕ
extend seen [] = seen
extend seen (c ∷ operand) = extend (append_new seen c) operand

abbrev pub extend_all : List ℕ → List OperandSc → List ℕ
extend_all seen [] = seen
extend_all seen (operand ∷ operands) = extend_all (extend seen operand) operands

abbrev pub label_of : List ℕ → ℕ → Label
label_of seen c = byte (97 + index_of seen c)

index_of-append :
    (xs ys : List ℕ) (a : ℕ)
    → index_of (xs ++ ys) a ≡ (if contains xs a then index_of xs a else length xs + index_of ys a)
index_of-append [] ys a = ground arith
index_of-append (x ∷ xs) ys a = ground (arith, index_of-append xs ys a)

-- The characters of `seen` keep their places.
pub record Grows (seen seen' : List ℕ) : Type 0 where
  pub keeps : (a : ℕ) → contains seen a ≡ true → contains seen' a ≡ true
  pub place : (a : ℕ) → contains seen a ≡ true → index_of seen' a ≡ index_of seen a

pub Grows-refl : (seen : List ℕ) → Grows seen seen
Grows-refl seen = record { keeps = λ a m. m; place = λ a m. refl }

pub Grows-trans : (a b c : List ℕ) → Grows a b → Grows b c → Grows a c
Grows-trans a b c g h = record {
  keeps = λ x m. h.keeps x (g.keeps x m);
  place = λ x m. h.place x (g.keeps x m) ∙ g.place x m;
}

append_new-Grows : (seen : List ℕ) (c : ℕ) → Grows seen (append_new seen c)
append_new-Grows seen c = record {
  keeps = λ a m. ground (arith, contains-append seen (c ∷ []) a, m);
  place = λ a m. ground (arith, index_of-append seen (c ∷ []) a, m);
}

pub extend-Grows : (seen : List ℕ) (operand : OperandSc) → Grows seen (extend seen operand)
extend-Grows seen [] = Grows-refl seen
extend-Grows seen (c ∷ operand) =
    Grows-trans seen (append_new seen c) (extend seen (c ∷ operand)) (append_new-Grows seen c)
      (extend-Grows (append_new seen c) operand)

pub extend_all-Grows :
    (seen : List ℕ) (operands : List OperandSc) → Grows seen (extend_all seen operands)
extend_all-Grows seen [] = Grows-refl seen
extend_all-Grows seen (operand ∷ operands) =
    Grows-trans seen (extend seen operand) (extend_all seen (operand ∷ operands))
      (extend-Grows seen operand) (extend_all-Grows (extend seen operand) operands)

pub contains-append_new : (seen : List ℕ) (c : ℕ) → contains (append_new seen c) c ≡ true
contains-append_new seen c = ground (arith, contains-append seen (c ∷ []) c)

-- The mapping and the next label after the characters of `seen`.
pub record Represents (ls : Labels) (seen : List ℕ) : Type 0 where
  pub found :
      (c : ℕ) → find c ls.char_mapping ≡ (if contains seen c then some (label_of seen c) else none)
  pub next : ls.next_label ≡ byte (97 + length seen)

pub no_labels-Represents : Represents no_labels []
no_labels-Represents = record { found = λ c. unfold find in refl; next = refl }

pub map_char-Represents :
    (c : ℕ) (ls : Labels) (seen : List ℕ)
    → Represents ls seen
    → Represents (map_char c ls) (append_new seen c)
unfolding map_char
map_char-Represents c ls seen r = record {
  found = λ a. ground (
    arith,
    r.found a,
    r.found c,
    r.next,
    find-insert_or_assign a c ls.next_label ls.char_mapping,
    contains-append seen (c ∷ []) a,
    index_of-append seen (c ∷ []) a,
  );
  next = ground (arith, r.found c, r.next, length-append seen (c ∷ []));
}

pub contains-extend :
    (seen : List ℕ) (operand : OperandSc) (a : ℕ)
    → contains operand a ≡ true
    → contains (extend seen operand) a ≡ true
contains-extend seen [] a m = absurd (ground (arith, m))
contains-extend seen (c ∷ operand) a m = elim (Bool-cases (c == a)) [
  | inl e ↦
      let grows = extend-Grows (append_new seen c) operand in
      let new : contains (append_new seen c) a ≡ true =
        ground (arith, contains-append seen (c ∷ []) a, e) in
      grows.keeps a new
  | inr e ↦ contains-extend (append_new seen c) operand a (ground (arith, m, e))
]

-- A later order gives the same labels to what is in an earlier one.
pub label_of-Grows :
    (a b : List ℕ) (operand : OperandSc)
    → Grows a b
    → ((x : ℕ) → contains operand x ≡ true → contains a x ≡ true)
    → map (label_of b) operand ≡ map (label_of a) operand
label_of-Grows a b [] g h = refl
label_of-Grows a b (c ∷ operand) g h =
    let rest = label_of-Grows a b operand g λ x m. h x (ground (arith, m)) in
    let first = ap (λ n. byte (97 + n)) (g.place c (h c (ground arith))) in
    ap (λ l. l ∷ map (label_of b) operand) first ∙ ap (λ ls. label_of a c ∷ ls) rest

index_of-lt : (xs : List ℕ) (a : ℕ) → contains xs a ≡ true → index_of xs a < length xs
index_of-lt [] a m = absurd (ground (arith, m))
index_of-lt (x ∷ xs) a m = ground (arith, m, index_of-lt xs a)

index_of-injective :
    (xs : List ℕ) (a b : ℕ) → contains xs a ≡ true → index_of xs a ≡ index_of xs b → a ≡ b
index_of-injective [] a b m e = absurd (ground (arith, m))
index_of-injective (x ∷ xs) a b m e = ground (arith, m, e, index_of-injective xs a b)

-- Up to 256 characters get labels of their own.
pub label_of-injective :
    (order : List ℕ) (a b : ℕ)
    → length order ≤ 256
    → contains order a ≡ true
    → contains order b ≡ true
    → label_of order a ≡ label_of order b
    → a ≡ b
label_of-injective order a b fits ma mb e =
    let lt_a = index_of-lt order a ma in
    let lt_b = index_of-lt order b mb in
    index_of-injective order a b ma (omega (arith, fits, e, lt_a, lt_b))
