-- ===== src/Jolokia/Response/Tagged.antt =====
-- Which metrics the value of a response gives, and their tags.
use hawkular_openshift_agent.Base.{
  refl, inr, All-append, inl, In, sym, Str, codes, str_leb, string_eq, str_eq_iff, true, ◌≡◌, ◌≢◌,
  ◌∙◌, some, List, [], ◌∷◌, ◌++◌, append_assoc, append-nil, All, arith,
}
use hawkular_openshift_agent.Base.Map
use hawkular_openshift_agent.Base.Map.{Map, get-put, get-put_self}
use hawkular_openshift_agent.Base.Sort.{
  pick-get, by_key, by_key-All, pick, sort_strings, insert_sorted, keys,
}
use hawkular_openshift_agent.Values.{Value, entries, Floats, number, object, Fields, end, field}
use hawkular_openshift_agent.Jolokia.MetricName.{is_all_attributes}
use hawkular_openshift_agent.Collector.{Datapoint, MetricHeader}
use hawkular_openshift_agent.Jolokia.Response.{
  process_single_attribute, process_all_attributes, process_attributes, process_single_mbean,
  Reading, tag_data, tag_all, sample, PathOutcome, value_at, inner, nothing, path_tags, add_path,
  add_paths, paths, path_of, process_single_composite_attribute,
}

module _ (f : Floats) (r : Reading) where
  -- The samples of the paths with a number, in their order.
  abbrev pub samples_of : Map Str (PathOutcome f r) → List (MetricHeader f.Float)
  samples_of [] = []
  samples_of ((k, value_at x) ∷ ps) = sample f r (path_tags f r k) x ∷ samples_of ps
  samples_of ((k, inner ms) ∷ ps) = samples_of ps
  samples_of ((k, nothing) ∷ ps) = samples_of ps

  -- No inner composite.
  abbrev pub IsFlat : Str × PathOutcome f r → Type 0
  IsFlat (k, value_at x) = Unit
  IsFlat (k, inner ms) = ⊥
  IsFlat (k, nothing) = Unit

  add_paths-samples_of :
      (ms : List (MetricHeader f.Float)) (ps : Map Str (PathOutcome f r))
      → All IsFlat ps
      → add_paths f r ms ps ≡ ms ++ samples_of ps
  unfolding add_paths add_path
  add_paths-samples_of ms [] h = sym (append-nil ms)
  add_paths-samples_of ms ((k, value_at x) ∷ ps) h =
      let s = sample f r (path_tags f r k) x in
      add_paths-samples_of (ms ++ s ∷ []) ps h.1 ∙ append_assoc ms (s ∷ []) (samples_of ps)
  add_paths-samples_of ms ((k, inner ns) ∷ ps) h = elim h.0 [ ]
  add_paths-samples_of ms ((k, nothing) ∷ ps) h = add_paths-samples_of ms ps h.1

  -- Of a composite attribute whose paths hold no inner composite, each path with a number, in the
  -- order of the paths' names, gives one metric, tagged with the path's name if all paths were
  -- asked for; the other paths give none.
  pub composite-samples_of :
      (fields : Fields f.Float)
      → All IsFlat (paths f r fields)
      → process_single_composite_attribute f r fields ≡ samples_of (by_key (paths f r fields))
  unfolding process_single_composite_attribute
  composite-samples_of fields h =
      add_paths-samples_of [] (by_key (paths f r fields)) (by_key-All IsFlat (paths f r fields) h)

  -- A number at a path that comes before one with an inner composite is lost: the result is the
  -- same whatever the number is, or if nothing is there.
  pub composite-inner :
      (k l : Str) (x : f.Float) (fields : Fields f.Float)
      → str_leb k l ≡ true
      → k ≢ l
      → process_single_composite_attribute f r (field k (number x) (field l (object fields) end))
        ≡ tag_all (codes "1") l (process_single_composite_attribute f r fields)
  unfolding process_single_composite_attribute paths path_of by_key pick sort_strings insert_sorted
      keys Map.get add_paths add_path
  composite-inner k l x fields le ne =
      ground (arith, str_eq_iff k l, str_eq_iff k k, str_eq_iff l l, str_eq_iff l k)

  -- The datapoints have the tag.
  abbrev pub HasTag : Str → Str → MetricHeader f.Float → Type 0
  HasTag key value m = All (λ d. Map.get d.tags key ≡ some value) m.samples

  tag_data-HasTag :
      (key value : Str) (ds : List (Datapoint f.Float))
      → All (λ d. Map.get d.tags key ≡ some value) (tag_data key value ds)
  unfolding tag_data
  tag_data-HasTag key value [] = tt
  tag_data-HasTag key value (d ∷ ds) = (get-put_self d.tags key value, tag_data-HasTag key value ds)

  tag_all-HasTag :
      (key value : Str) (ms : List (MetricHeader f.Float))
      → All (HasTag key value) (tag_all key value ms)
  unfolding tag_all
  tag_all-HasTag key value [] = tt
  tag_all-HasTag key value (m ∷ ms) =
      (tag_data-HasTag key value m.samples, tag_all-HasTag key value ms)

  -- The metric comes from an attribute of the object, and its datapoints have the attribute's name
  -- in the tag `1`.
  abbrev pub IsOfAttribute : Map Str (Value f.Float) → MetricHeader f.Float → Type 0
  IsOfAttribute vs m =
      (k : Str) × (v : Value f.Float) × (Map.get vs k ≡ some v)
      × In m (tag_all (codes "1") k (process_single_attribute f r v))
      × HasTag (codes "1") k m

  attribute-IsOfAttribute :
      (vs : Map Str (Value f.Float)) (k : Str) (v : Value f.Float)
      (ms : List (MetricHeader f.Float))
      → Map.get vs k ≡ some v
      → ((m : MetricHeader f.Float)
          → In m ms
          → In m (tag_all (codes "1") k (process_single_attribute f r v)))
      → All (HasTag (codes "1") k) ms
      → All (IsOfAttribute vs) ms
  attribute-IsOfAttribute vs k v [] found i t = tt
  attribute-IsOfAttribute vs k v (m ∷ ms) found i t = (
    (k, v, found, i m (inl refl), t.0),
    attribute-IsOfAttribute vs k v ms found (λ n j. i n (inr j)) t.1,
  )

  attributes-IsOfAttribute :
      (vs ps : Map Str (Value f.Float))
      → All (λ p. Map.get vs p.0 ≡ some p.1) ps
      → All (IsOfAttribute vs) (process_attributes f r ps)
  unfolding process_attributes
  attributes-IsOfAttribute vs [] h = tt
  attributes-IsOfAttribute vs ((k, v) ∷ ps) h =
      let ms = tag_all (codes "1") k (process_single_attribute f r v) in
      All-append (IsOfAttribute vs) ms _
        (attribute-IsOfAttribute vs k v ms h.0 (λ m i. i)
          (tag_all-HasTag (codes "1") k (process_single_attribute f r v)))
        (attributes-IsOfAttribute vs ps h.1)

  -- Where all attributes of an mbean were asked for, every metric is one of those that an
  -- attribute of the value gives by itself, with the name of that attribute in the tag `1` of its
  -- datapoints, by which the manager tells the attributes apart.
  pub all_attributes-IsOfAttribute :
      (fields : Fields f.Float)
      → is_all_attributes r.parts ≡ true
      → All (IsOfAttribute (entries fields)) (process_single_mbean f r (object fields))
  unfolding process_single_mbean process_all_attributes by_key
  all_attributes-IsOfAttribute fields all = rw all (
      attributes-IsOfAttribute (entries fields) (by_key (entries fields))
        (pick-get (sort_strings (keys (entries fields))) (entries fields)))
