-- ===== src/BulkUpdater/Queue.antt =====
-- What a bulk updater has queued and written, whatever the context does.
use hypertrie.Common.{
  Bool, List, List-cases, [], ap, append_assoc, arith, contains, false, if◌then◌else◌, inl, inr,
  length, refl, subst, sym, true, ℕ, ◌++◌, ◌+◌, ◌<◌, ◌==◌, ◌||◌, ◌∙◌, ◌∷◌, ◌≡◌, ◌≤◌, ◌⊎◌,
}
use hypertrie.BulkUpdater.{BulkContext, BulkSizes, BulkUpdater, BulkUpdaterMode, flush, is_wanted}
use hypertrie.Common.Sets.{count}

module _ {S E : Type 0} (context : BulkContext S E) where
  -- The identifiers of entries, which stand for the entries.
  abbrev pub ids : List E → List ℕ
  ids [] = []
  ids (e ∷ entries) = context.identify e ∷ ids entries

  -- The context after calls of `insert` in a row.
  abbrev pub insert_all : S → List (List E) → S
  insert_all stored [] = stored
  insert_all stored (b ∷ bulks) = insert_all (context.insert stored b) bulks

  -- How often an identifier is in the bulks.
  abbrev pub times : List (List E) → ℕ → ℕ
  times [] a = 0
  times (b ∷ bulks) a = count a (ids b) + times bulks a

  -- No bulk is empty or larger than the bulk size.
  abbrev pub AllSized : ℕ → List (List E) → Type 0
  AllSized bulk_size [] = Unit
  AllSized bulk_size (b ∷ bulks) =
      (0 < length b) × (length b ≤ bulk_size) × AllSized bulk_size bulks

  insert_all-append :
      (stored : S) (bulks : List (List E)) (b : List E)
      → insert_all stored (bulks ++ (b ∷ [])) ≡ context.insert (insert_all stored bulks) b
  insert_all-append stored [] b = refl
  insert_all-append stored (c ∷ bulks) b = insert_all-append (context.insert stored c) bulks b

  times-append :
      (bulks : List (List E)) (b : List E) (a : ℕ)
      → times (bulks ++ (b ∷ [])) a ≡ times bulks a + count a (ids b)
  times-append [] b a = omega arith
  times-append (c ∷ bulks) b a = omega (arith, times-append bulks b a)

  AllSized-append :
      (n : ℕ) (bulks : List (List E)) (b : List E)
      → AllSized n bulks
      → 0 < length b
      → length b ≤ n
      → AllSized n (bulks ++ (b ∷ []))
  AllSized-append n [] b sized some_entries few = (some_entries, few, tt)
  AllSized-append n (c ∷ bulks) b (lo, hi, sized) some_entries few =
      (lo, hi, AllSized-append n bulks b sized some_entries few)

  pub count-ids :
      (entries : List E) (x : E) (a : ℕ)
      → count a (ids (entries ++ (x ∷ [])))
        ≡ (if context.identify x == a then 1 else 0) + count a (ids entries)
  count-ids [] x a = refl
  count-ids (e ∷ entries) x a = omega (arith, count-ids entries x a)

  -- When so many bulks were written, an entry with the identifier was not wanted.
  abbrev pub Unwanted : BulkUpdaterMode → S → List (List E) → ℕ → Type 0
  Unwanted mode initial bulks a =
      (before : List (List E)) × (after : List (List E)) × (e : E) × (before ++ after ≡ bulks)
      × (context.identify e ≡ a)
      × (is_wanted context mode (context.get (insert_all initial before) e) ≡ false)

  Unwanted-append :
      (mode : BulkUpdaterMode) (initial : S) (bulks : List (List E)) (b : List E) (a : ℕ)
      → Unwanted mode initial bulks a
      → Unwanted mode initial (bulks ++ (b ∷ [])) a
  Unwanted-append mode initial bulks b a (before, after, e, all, same, unwanted) = (
    before,
    after ++ (b ∷ []),
    e,
    sym (append_assoc before after (b ∷ [])) ∙ ap (λ bs. bs ++ (b ∷ [])) all,
    same,
    unwanted,
  )

  module _ (mode : BulkUpdaterMode) (initial : S) (sizes : BulkSizes) where
    abbrev pub in_bulks : List (List E) → List E → ℕ → ℕ
    in_bulks bulks queue a = times bulks a + count a (ids queue)

    abbrev pub Accounted : List (List E) → List E → ℕ → Type 0
    Accounted bulks queue a = (0 < in_bulks bulks queue a) ⊎ Unwanted mode initial bulks a

    -- After `n` entries with the identifiers `added`.
    pub record Inv (n : ℕ) (added : ℕ → Bool) (u : BulkUpdater S E) : Type 0 where
      pub bulks : List (List E)
      pub reached : u.stored ≡ insert_all initial bulks
      pub sized : AllSized sizes.bulk_size bulks
      pub room : length u.new_entries ≤ sizes.bulk_size
      pub sound : (a : ℕ) → 0 < in_bulks bulks u.new_entries a → added a ≡ true
      pub noted : (a : ℕ) → contains u.de_duplication a ≡ true → Accounted bulks u.new_entries a
      pub complete : (a : ℕ) → added a ≡ true → Accounted bulks u.new_entries a
      pub small : n < sizes.deduplication_max_size → length u.de_duplication ≤ n
      pub remembers :
          n < sizes.deduplication_max_size
          → (a : ℕ) → added a ≡ true
          → contains u.de_duplication a ≡ true
      pub once : n < sizes.deduplication_max_size → (a : ℕ) → in_bulks bulks u.new_entries a ≤ 1

    abbrev pub with_id : E → (ℕ → Bool) → ℕ → Bool
    with_id x added a = context.identify x == a || added a

    pub Inv-flush :
        (n : ℕ) (added : ℕ → Bool) (u : BulkUpdater S E)
        → Inv n added u
        → Inv n added (flush context u) × (length (flush context u).new_entries ≡ 0)
    unfolding flush
    Inv-flush n added u i = elim (List-cases u.new_entries) [
      | inl none_left ↦
          rw none_left ((subst (λ q. Inv n added (record u { new_entries = q })) none_left i), refl)
      | inr (x, rest, some_left) ↦
          let i' = subst (λ q. Inv n added (record u { new_entries = q })) some_left i in
          let all = i'.bulks ++ ((x ∷ rest) ∷ []) in
          let same : (a : ℕ) → in_bulks all [] a ≡ in_bulks i'.bulks (x ∷ rest) a =
            λ a. let t = times-append i'.bulks (x ∷ rest) a in omega (arith, t) in
          let known : (a : ℕ) → Accounted i'.bulks (x ∷ rest) a → Accounted all [] a = λ a k.
            elim k [
              | inl lt ↦ inl (let e = same a in omega (arith, lt, e))
              | inr w ↦ inr (Unwanted-append mode initial i'.bulks (x ∷ rest) a w)
            ] in
          rw some_left (
            record {
              bulks = all;
              reached =
                  ap (λ s. context.insert s (x ∷ rest)) i'.reached
                  ∙ sym (insert_all-append initial i'.bulks (x ∷ rest));
              sized =
                  AllSized-append sizes.bulk_size i'.bulks (x ∷ rest) i'.sized (omega arith)
                    i'.room;
              room = omega arith;
              sound = λ a lt. i'.sound a (let e = same a in omega (arith, lt, e));
              noted = λ a m. known a (i'.noted a m);
              complete = λ a m. known a (i'.complete a m);
              small = i'.small;
              remembers = i'.remembers;
              once = λ few a. let o = i'.once few a in let e = same a in omega (arith, o, e);
            },
            refl,
          )
    ]
