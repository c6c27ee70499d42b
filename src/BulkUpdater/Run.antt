-- ===== src/BulkUpdater/Run.antt =====
-- All the entries that are given to a bulk updater are written when it is destroyed, but for those
-- that are not wanted.
use hypertrie.Common.{
  ==_iff, Bool, Bool-cases, List, [], ap, append-nil, arith, contains, false, if◌then◌else◌, inl,
  inr, leb, length, length-append, refl, subst, suc, true, ℕ, ◌++◌, ◌<◌, ◌==◌, ◌||◌, ◌∷◌, ◌≡◌, ◌≤◌,
}
use hypertrie.BulkUpdater.{
  BulkContext, BulkSizes, BulkUpdater, BulkUpdaterMode, add, is_wanted, push_entry,
}
use hypertrie.BulkUpdater.Queue.{Inv, Inv-flush, Accounted, Unwanted, count-ids, with_id}
use hypertrie.Common.Sets.{contains-set_insert, length-set_insert, set_insert}

module _ {S E : Type 0} (context : BulkContext S E) (mode : BulkUpdaterMode) (initial : S)
    (sizes : BulkSizes) where
  -- `de_duplication_` after an entry.
  abbrev kept : E → List ℕ → List ℕ
  kept x seen =
      let all = set_insert (context.identify x) seen in
      if length all == sizes.deduplication_max_size then [] else all

  kept-some :
      (x : E) (seen : List ℕ) (a : ℕ)
      → contains (kept x seen) a ≡ true
      → (context.identify x == a || contains seen a) ≡ true
  kept-some x seen a m = ground (arith, m, contains-set_insert (context.identify x) seen a)

  kept-all :
      (x : E) (seen : List ℕ) (n : ℕ)
      → length seen ≤ n
      → suc n < sizes.deduplication_max_size
      → kept x seen ≡ set_insert (context.identify x) seen
  kept-all x seen n small few =
      let longer = length-set_insert (context.identify x) seen in
      let room : (length (set_insert (context.identify x) seen) == sizes.deduplication_max_size)
          ≡ false =
        ground (arith, longer, small, few) in
      rw room refl

  module _ (n : ℕ) (added : ℕ → Bool) (x : E) (u : BulkUpdater S E)
      (i : Inv context mode initial sizes n added u) where
    -- How the new entry's identifier and the others are known.
    known_with :
        (bulks : List (List E)) (queue : List E)
        → Accounted context mode initial sizes bulks queue (context.identify x)
        → ((a : ℕ) → added a ≡ true → Accounted context mode initial sizes bulks queue a)
        → (a : ℕ) → (context.identify x == a || added a) ≡ true
        → Accounted context mode initial sizes bulks queue a
    known_with bulks queue first others a m = elim (Bool-cases (context.identify x == a)) [
      | inl same ↦
          subst (Accounted context mode initial sizes bulks queue)
            ((==_iff (context.identify x) a).0 same) first
      | inr apart ↦ others a (ground (arith, m, apart))
    ]

    abbrev kept_now : List ℕ
    kept_now = kept x u.de_duplication

    kept_small : suc n < sizes.deduplication_max_size → length kept_now ≤ suc n
    kept_small few =
        let small = i.small (omega (arith, few)) in
        let same = ap length (kept-all x u.de_duplication n small few) in
        omega (arith, same, small, length-set_insert (context.identify x) u.de_duplication)

    kept_remembers :
        suc n < sizes.deduplication_max_size
        → (a : ℕ) → (context.identify x == a || added a) ≡ true
        → contains kept_now a ≡ true
    kept_remembers few a m =
        let small = i.small (omega (arith, few)) in
        let same = ap (λ l. contains l a) (kept-all x u.de_duplication n small few) in
        let before = i.remembers (omega (arith, few)) a in
        ground (arith, m, same, before, contains-set_insert (context.identify x) u.de_duplication a)

    Inv-known :
        Accounted context mode initial sizes i.bulks u.new_entries (context.identify x)
        → Inv context mode initial sizes
            (suc n)
            (with_id context mode initial sizes x added)
            (record u { de_duplication = kept_now })
    Inv-known known = record {
      bulks = i.bulks;
      reached = i.reached;
      sized = i.sized;
      room = i.room;
      sound = λ a lt. let e = i.sound a lt in ground (arith, e);
      noted = λ a m. elim (Bool-cases (contains u.de_duplication a)) [
        | inl before ↦ i.noted a before
        | inr fresh ↦
            let now : (context.identify x == a) ≡ true =
              let some = kept-some x u.de_duplication a m in ground (arith, some, fresh) in
            subst (Accounted context mode initial sizes i.bulks u.new_entries)
              ((==_iff (context.identify x) a).0 now) known
      ];
      complete = known_with i.bulks u.new_entries known i.complete;
      small = kept_small;
      remembers = kept_remembers;
      once = λ few a. i.once (omega (arith, few)) a;
    }

    Inv-queued :
        contains u.de_duplication (context.identify x) ≡ false
        → length u.new_entries < sizes.bulk_size
        → Inv context mode initial sizes
            (suc n)
            (with_id context mode initial sizes x added)
            (record u { de_duplication = kept_now; new_entries = u.new_entries ++ (x ∷ []) })
    Inv-queued unseen room =
        let queue = u.new_entries ++ (x ∷ []) in
        let counted = count-ids context u.new_entries x in
        let more : (a : ℕ)
            → Accounted context mode initial sizes i.bulks u.new_entries a
            → Accounted context mode initial sizes i.bulks queue a =
          λ a k. elim k [
            | inl lt ↦ inl (let c = counted a in omega (arith, c, lt))
            | inr w ↦ inr w
          ] in
        let new : Accounted context mode initial sizes i.bulks queue (context.identify x) = inl (
          let c = counted (context.identify x) in
          let e = (==_iff (context.identify x) (context.identify x)).1 refl in
          ground (arith, c, e)) in
        record {
          bulks = i.bulks;
          reached = i.reached;
          sized = i.sized;
          room = let l = length-append u.new_entries (x ∷ []) in omega (arith, l, room);
          sound = λ a lt. let c = counted a in let s = i.sound a in ground (arith, lt, c, s);
          noted = λ a m. elim (Bool-cases (contains u.de_duplication a)) [
            | inl before ↦ more a (i.noted a before)
            | inr fresh ↦
                let now : (context.identify x == a) ≡ true =
                  let some = kept-some x u.de_duplication a m in ground (arith, some, fresh) in
                subst (Accounted context mode initial sizes i.bulks queue)
                  ((==_iff (context.identify x) a).0 now) new
          ];
          complete = known_with i.bulks queue new (λ a m. more a (i.complete a m));
          small = kept_small;
          remembers = kept_remembers;
          once = λ few a. elim (Bool-cases (context.identify x == a)) [
            | inl same ↦
                let at_a =
                  subst (λ l. contains u.de_duplication l ≡ false)
                    ((==_iff (context.identify x) a).0 same) unseen in
                let remembered = i.remembers (omega (arith, few)) a in
                let c = counted a in
                let s = i.sound a in ground (arith, at_a, remembered, c, s, same)
            | inr apart ↦
                let c = counted a in
                let o = i.once (omega (arith, few)) a in ground (arith, c, o, apart)
          ];
        }

    -- The updater after the entry, for the results of the two tests.
    abbrev stepped : Bool → Bool → BulkUpdater S E
    stepped again wanted =
        if again
        then record u { de_duplication = kept_now }
        else if wanted
        then push_entry context sizes x (record u { de_duplication = kept_now })
        else record u { de_duplication = kept_now }

    abbrev Stepped : BulkUpdater S E → Type 0
    Stepped u' =
        Inv context mode initial sizes (suc n) (with_id context mode initial sizes x added) u'
        × (length u'.new_entries < sizes.bulk_size)

    stepped-Stepped :
        (again wanted : Bool)
        → contains u.de_duplication (context.identify x) ≡ again
        → is_wanted context mode (context.get u.stored x) ≡ wanted
        → 0 < sizes.bulk_size
        → length u.new_entries < sizes.bulk_size
        → Stepped (stepped again wanted)
    unfolding push_entry
    stepped-Stepped true wanted seen w pos_size room =
        (Inv-known (i.noted (context.identify x) seen), room)
    stepped-Stepped false false seen w pos_size room =
        let there : Unwanted context mode initial i.bulks (context.identify x) = (
          i.bulks,
          [],
          x,
          append-nil i.bulks,
          refl,
          (subst (λ s. is_wanted context mode (context.get s x) ≡ false) i.reached w),
        ) in
        (Inv-known (inr there), room)
    stepped-Stepped false true seen w pos_size room =
        let queue = u.new_entries ++ (x ∷ []) in
        let queued = Inv-queued seen room in
        elim (Bool-cases (leb sizes.bulk_size (length queue))) [
          | inl full ↦
              let (written, empty) =
                Inv-flush context mode initial sizes (suc n)
                  (with_id context mode initial sizes x added)
                  (record u { de_duplication = kept_now; new_entries = queue }) queued in
              rw full (written, omega (arith, empty, pos_size))
          | inr not_full ↦ rw not_full (queued, ground (arith, not_full))
        ]

    pub Inv-add :
        0 < sizes.bulk_size
        → length u.new_entries < sizes.bulk_size
        → Stepped (add context mode sizes x u)
    unfolding add
    Inv-add pos_size room =
        stepped-Stepped (contains u.de_duplication (context.identify x))
          (is_wanted context mode (context.get u.stored x)) refl refl pos_size room
