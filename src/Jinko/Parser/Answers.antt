-- ===== src/Jinko/Parser/Answers.antt =====
-- What a parsed answer keeps of the version texts, and of its time.
use Prim.Native.String.{String}
use jinko_exporter.Prelude.{
  ℕ, ◌≡◌, refl, sym, ap, ◌∙◌, ◌↔◌, true, Option, some, List, [], ◌∷◌, ◌++◌, map, arith, err, inl,
  inr, Bool-cases,
}
use jinko_exporter.Prelude.Int.{ℤ, pos, ◌≤ℤ◌, ltb_ℤ}
use jinko_exporter.Model.{Metric, zero_time}
use jinko_exporter.Model.Freshness.{
  CollectionError, invalid_time, negative_max_age, validate_with_age, validate_collection_time,
  effective_max_age,
}
use jinko_exporter.Jinko.Metadata.{Field, Collected, lookup, collect_all, collect_cloud_metadata}
use jinko_exporter.Jinko.Metadata.Exactly.{
  given, all_agree, any_given, nothing_collected, kept_exactly,
}
use jinko_exporter.Jinko.Parser.{
  Category, Seconds, DetailResponse, add_metric, normalize_group, parse_fields, parse_categories,
  parse_detail_response, collected_at,
}

abbrev pub all_fields : List Category → List Field
all_fields [] = []
all_fields (cat ∷ categories) = cat.field_list ++ all_fields categories

collect_all-append :
    (c : Collected) (xs ys : List Field)
    → collect_all c (xs ++ ys) ≡ collect_all (collect_all c xs) ys
unfolding collect_all
collect_all-append c [] ys = refl
collect_all-append c (x ∷ xs) ys = collect_all-append (collect_cloud_metadata c x) xs ys

module _ {V : Type 0} (parse_float : List ℕ → Option V) where
  parse_fields-collects :
      (group : String) (fields : List Field) (c : Collected) (metrics : List (Metric V))
      → (parse_fields parse_float group fields c metrics).0 ≡ collect_all c fields
  unfolding parse_fields collect_all
  parse_fields-collects group [] c metrics = refl
  parse_fields-collects group (f ∷ fields) c metrics =
      parse_fields-collects group fields (collect_cloud_metadata c f)
        (add_metric parse_float group f metrics)

  parse_categories-collects :
      (categories : List Category) (c : Collected) (metrics : List (Metric V))
      → (parse_categories parse_float categories c metrics).0
        ≡ collect_all c (all_fields categories)
  unfolding parse_categories collect_all
  parse_categories-collects [] c metrics = refl
  parse_categories-collects (cat ∷ categories) c metrics =
      let parsed =
        parse_fields parse_float (normalize_group cat.tag cat.name) cat.field_list c metrics in
      parse_categories-collects categories parsed.0 parsed.1
      ∙ ap (λ x. collect_all x (all_fields categories))
          (parse_fields-collects (normalize_group cat.tag cat.name) cat.field_list c metrics)
      ∙ sym (collect_all-append c cat.field_list (all_fields categories))

  -- A parsed answer carries a version text under a key exactly when some field of some category gives
  -- a text for it and every field that does gives this very text, which is valid: the order of the
  -- fields and of the categories does not matter, and no key has a text that is only sometimes right.
  pub meta_exactly :
      (payload : DetailResponse) (key value : String)
      → let texts = map (given key) (all_fields payload.categories) in
        (lookup (parse_detail_response parse_float payload).meta key ≡ some value)
        ↔ ((any_given texts ≡ true) × (all_agree value texts ≡ true))
  unfolding parse_detail_response
  meta_exactly payload key value =
      rw (parse_detail_response, parse_categories-collects payload.categories nothing_collected [])
        (kept_exactly (all_fields payload.categories) key value)

  collected_at-timeless : (t : Seconds) → t.numerator ≤ℤ pos 0 → collected_at t ≡ zero_time
  unfolding collected_at
  collected_at-timeless t h = ground arith

  zero_time-refused :
      (now max_age : ℤ)
      → (e : CollectionError) × (validate_collection_time zero_time now max_age ≡ err e)
  unfolding validate_collection_time validate_with_age
  zero_time-refused now max_age = elim (Bool-cases (ltb_ℤ (effective_max_age max_age) (pos 0))) [
    | inl negative ↦ (negative_max_age, rw negative refl)
    | inr allowed ↦ (invalid_time, rw allowed refl)
  ]

  -- An answer without a positive time, which a cache for an offline device gives, is never fresh:
  -- whatever the clock says and whatever age is allowed, its check ends in an error.
  pub timeless_is_refused :
      (payload : DetailResponse) (now max_age : ℤ)
      → payload.collection_time.numerator ≤ℤ pos 0
      → (e : CollectionError) × (validate_collection_time
            (parse_detail_response parse_float payload).collected_at
            now
            max_age
          ≡ err e)
  unfolding parse_detail_response
  timeless_is_refused payload now max_age h =
      rw (parse_detail_response, collected_at-timeless payload.collection_time h)
        (zero_time-refused now max_age)
