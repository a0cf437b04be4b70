-- ===== src/Storage/Stored.antt =====
-- storage/metrics_storage.go: one definition, for a server that does as it is asked.
use hawkular_openshift_agent.Base.{
  sym, Str, str_eq_iff, string_eq, true, false, not, ◌&&◌, ◌≡◌, inl, inr, refl, ◌∙◌, Option,
  Option-cases, none, some, [], ◌∷◌, arith, Bool-cases, if◌then◌else◌,
}
use hawkular_openshift_agent.Base.Map
use mathlib.Core.Option
use hawkular_openshift_agent.Base.Map.{Map, get-delete, IsMap}
use mathlib.Core.Option
use hawkular_openshift_agent.Config.Tags.{append_tags}
use hawkular_openshift_agent.Config.Tags.Laws.{get-append_tags}
use hawkular_openshift_agent.Collector.{Tags}
use hawkular_openshift_agent.Storage.{
  key_in, MetricDefinition, update_definition, put_definition, store_definition, MetricKey,
  metric_key, key_eq_iff, Client, covers, deep_equal, delete_obsolete,
}

-- A server that keeps definitions with tags, whose calls do not fail: the documented behaviour of
-- the calls, as what is stored after each of them.
pub record Server {V : Type 0} (c : Client V) : Type 1 where
  pub stored : c.State → MetricKey → Option Tags
  pub definition_lem : (s : c.State) (k : MetricKey) → c.definition s k ≡ (stored s k, false)
  pub create_lem :
      (s : c.State) (k j : MetricKey) (tags : Tags)
      → stored (c.create s k tags) j ≡ (if metric_key.beq k j then some tags else stored s j)
  pub delete_tags_lem :
      (s : c.State) (k j : MetricKey) (name value : Str)
      → stored (c.delete_tags s k ((name, value) ∷ [])) j ≡ (
          if metric_key.beq k j
          then Option.map (λ t. Map.delete t name) (stored s j)
          else stored s j)
  pub update_tags_lem :
      (s : c.State) (k j : MetricKey) (tags : Tags)
      → stored (c.update_tags s k tags) j ≡ (
          if metric_key.beq k j
          then Option.map (λ t. append_tags t tags) (stored s j)
          else stored s j)

covers-get :
    (a b : Tags) (k v : Str) → covers a b ≡ true → Map.get a k ≡ some v → Map.get b k ≡ some v
unfolding covers Map.get
covers-get [] b k v h g = cc
covers-get ((j, w) ∷ a) b k v h g = elim (Option-cases (Map.get b j)) [
  | inl missing ↦ cc
  | inr (x, is) ↦ ground (arith, str_eq_iff j k, str_eq_iff w x, covers-get a b k v)
]

deep_equal-get : (a b : Tags) (k : Str) → deep_equal a b ≡ true → Map.get a k ≡ Map.get b k
unfolding deep_equal
deep_equal-get a b k h = elim (Option-cases (Map.get a k)) [
  | inl missing ↦ elim (Option-cases (Map.get b k)) [
    | inl too ↦ rw (missing, too) refl
    | inr (v, is) ↦ cc (covers-get b a k v (ground arith) is)
  ]
  | inr (v, is) ↦ rw (is, covers-get a b k v (ground arith) is) refl
]

updated :
    (t tags t' : Tags) (name : Str)
    → IsMap tags
    → Map.get t' name ≡ (if Map.has t name && not (Map.has tags name) then none else Map.get t name)
    → Map.get (append_tags t' tags) name ≡ Map.get tags name
unfolding Map.has
updated t tags t' name m h = ground (arith, get-append_tags t' tags name m)

-- Tags that are stored under a key, as a dictionary.
abbrev pub Keeps : Option Tags → Tags → Type 0
Keeps at tags = (t : Tags) × (at ≡ some t) × ((name : Str) → Map.get t name ≡ Map.get tags name)

module _ {V : Type 0} (c : Client V) (server : Server c) where
  delete_obsolete-other :
      (existing tags : Tags) (s : c.State) (k j : MetricKey)
      → metric_key.beq k j ≡ false
      → server.stored (delete_obsolete c s k existing tags) j ≡ server.stored s j
  unfolding delete_obsolete
  delete_obsolete-other [] tags s k j ne = refl
  delete_obsolete-other ((name, value) ∷ existing) tags s k j ne =
      elim (Bool-cases (Map.has tags name)) [
        | inl has ↦ rw has (delete_obsolete-other existing tags s k j ne)
        | inr lacks ↦ rw lacks (
            delete_obsolete-other existing tags (c.delete_tags s k ((name, value) ∷ [])) k j ne
            ∙ rw (server.delete_tags_lem s k j name value, ne) refl)
      ]

  obsolete-none :
      (tags t : Tags) (name : Str)
      → Map.get t name
        ≡ (if Map.has {V = Str} [] name && not (Map.has tags name) then none else Map.get t name)
  unfolding Map.has Map.get
  obsolete-none tags t name = refl

  obsolete-step :
      (existing tags t t' : Tags) (gone value name : Str)
      → Map.has tags gone ≡ false
      → Map.get t' name ≡ (
          if Map.has existing name && not (Map.has tags name)
          then none
          else Map.get (Map.delete t gone) name)
      → Map.get t' name ≡ (
          if Map.has ((gone, value) ∷ existing) name && not (Map.has tags name)
          then none
          else Map.get t name)
  unfolding Map.has Map.get
  obsolete-step existing tags t t' gone value name h e =
      ground (arith, get-delete t gone name, str_eq_iff gone name)

  obsolete-kept :
      (existing tags t t' : Tags) (kept value name : Str)
      → Map.has tags kept ≡ true
      → Map.get t' name
        ≡ (if Map.has existing name && not (Map.has tags name) then none else Map.get t name)
      → Map.get t' name ≡ (
          if Map.has ((kept, value) ∷ existing) name && not (Map.has tags name)
          then none
          else Map.get t name)
  unfolding Map.has Map.get
  obsolete-kept existing tags t t' kept value name h e = ground (arith, str_eq_iff kept name)

  delete_obsolete-same :
      (existing tags : Tags) (s : c.State) (k : MetricKey) (t : Tags)
      → server.stored s k ≡ some t
      → (t' : Tags) × (server.stored (delete_obsolete c s k existing tags) k ≡ some t')
        × ((name : Str)
            → Map.get t' name
              ≡ (if Map.has existing name && not (Map.has tags name) then none else Map.get t name))
  unfolding delete_obsolete
  delete_obsolete-same [] tags s k t h = (t, h, λ name. obsolete-none tags t name)
  delete_obsolete-same ((name, value) ∷ existing) tags s k t h =
      elim (Bool-cases (Map.has tags name)) [
        | inl has ↦
            let (t', is, says) = delete_obsolete-same existing tags s k t h in
            (t', rw has is, λ n. obsolete-kept existing tags t t' name value n has (says n))
        | inr lacks ↦
            let same : metric_key.beq k k ≡ true = (key_eq_iff k k).1 refl in
            let (t', is, says) =
              delete_obsolete-same existing tags (c.delete_tags s k ((name, value) ∷ [])) k
                (Map.delete t name) (rw (server.delete_tags_lem s k k name value, same, h) refl) in
            (t', rw lacks is, λ n. obsolete-step existing tags t t' name value n lacks (says n))
      ]

  -- One definition: its tags are stored, and no other metric's are touched.
  pub store_definition-Keeps :
      (tenant : Str) (s : c.State) (md : MetricDefinition)
      → IsMap md.tags
      → Keeps (server.stored (store_definition c tenant s md) (key_in tenant md)) md.tags
  unfolding store_definition put_definition update_definition
  store_definition-Keeps tenant s md m =
      let k = key_in tenant md in
      let same : metric_key.beq k k ≡ true = (key_eq_iff k k).1 refl in
      rw (server.definition_lem s k) (elim (Option-cases (server.stored s k)) [
        | inl new ↦ rw new (md.tags, rw (server.create_lem s k k md.tags, same) refl, λ name. refl)
        | inr (t, is) ↦ rw is (elim (Bool-cases (deep_equal md.tags t)) [
          | inl equal ↦ rw equal (t, is, λ name. sym (deep_equal-get md.tags t name equal))
          | inr differs ↦
              let (t', kept, says) = delete_obsolete-same t md.tags s k t is in
              rw differs (
                append_tags t' md.tags,
                rw
                    (
                      server.update_tags_lem (delete_obsolete c s k t md.tags) k k md.tags,
                      same,
                      kept,
                    )
                    refl,
                λ name. updated t md.tags t' name m (says name),
              )
        ])
      ])

  pub store_definition-other :
      (tenant : Str) (s : c.State) (md : MetricDefinition) (j : MetricKey)
      → metric_key.beq (key_in tenant md) j ≡ false
      → server.stored (store_definition c tenant s md) j ≡ server.stored s j
  unfolding store_definition put_definition update_definition
  store_definition-other tenant s md j ne =
      let k = key_in tenant md in
      rw (server.definition_lem s k) (elim (Option-cases (server.stored s k)) [
        | inl new ↦ rw new (rw (server.create_lem s k j md.tags, ne) refl)
        | inr (t, is) ↦ rw is (elim (Bool-cases (deep_equal md.tags t)) [
          | inl equal ↦ rw equal refl
          | inr differs ↦ rw differs (
              rw (server.update_tags_lem (delete_obsolete c s k t md.tags) k j md.tags, ne)
                (delete_obsolete-other t md.tags s k j ne))
        ])
      ])
