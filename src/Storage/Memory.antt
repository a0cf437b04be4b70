-- ===== src/Storage/Memory.antt =====
-- A Hawkular server in memory, for examples.
use hawkular_openshift_agent.Base.{
  string_eq, ℕ, true, false, ◌≡◌, inl, inr, refl, ◌∙◌, Option, none, some, [], ◌∷◌, Bool-cases,
  if◌then◌else◌,
}
use hawkular_openshift_agent.Base.Map
use mathlib.Core.Option
use hawkular_openshift_agent.Base.Map.{Map, get-put}
use hawkular_openshift_agent.Config.Tags.{append_tags}
use hawkular_openshift_agent.Collector.{Tags}
use hawkular_openshift_agent.Storage.{MetricKey, metric_key, key_eq_iff, Client}
use hawkular_openshift_agent.Storage.Stored.{Server}

abbrev State : Type 0
State = Map MetricKey Tags

abbrev delete_each : Tags → Tags → Tags
delete_each t [] = t
delete_each t ((name, value) ∷ gone) = delete_each (Map.delete t name) gone

abbrev changed : State → MetricKey → (Tags → Tags) → Option Tags → State
changed s k f none = s
changed s k f (some t) = Map.put s k (f t)

abbrev change : State → MetricKey → (Tags → Tags) → State
change s k f = changed s k f (Map.get s k)

abbrev pub memory : Client ℕ
memory = record {
  State = State;
  definition = λ s k. (Map.get s k, false);
  create = λ s k tags. Map.put s k tags;
  delete_tags = λ s k gone. change s k (λ t. delete_each t gone);
  update_tags = λ s k tags. change s k (λ t. append_tags t tags);
  write = λ s tenant ms. (s, false);
}

-- What the look-up of a key gives after the change of another.
abbrev after : State → MetricKey → MetricKey → (Tags → Tags) → Option Tags
after s k j f = if metric_key.beq k j then Option.map f (Map.get s j) else Map.get s j

changed_same :
    (s : State) (k j : MetricKey) (f : Tags → Tags) (o : Option Tags)
    → Map.get s k ≡ o
    → k ≡ j
    → Map.get (changed s k f o) j ≡ after s k j f
changed_same s k j f none h e =
    let here : Map.get s j ≡ none = rw (← e) h in
    here ∙ (let same : metric_key.beq k j ≡ true = (key_eq_iff k j).1 e in rw (same, here) refl)
changed_same s k j f (some t) h e =
    let here : Map.get s j ≡ some t = rw (← e) h in
    let same : metric_key.beq k j ≡ true = (key_eq_iff k j).1 e in
    get-put s k j (f t) ∙ rw (same, here) refl

changed_other :
    (s : State) (k j : MetricKey) (f : Tags → Tags) (o : Option Tags)
    → metric_key.beq k j ≡ false
    → Map.get (changed s k f o) j ≡ Map.get s j
changed_other s k j f none ne = refl
changed_other s k j f (some t) ne = get-put s k j (f t) ∙ rw ne refl

changed_lem :
    (s : State) (k j : MetricKey) (f : Tags → Tags) (o : Option Tags)
    → Map.get s k ≡ o
    → Map.get (changed s k f o) j ≡ after s k j f
changed_lem s k j f o h = elim (Bool-cases (metric_key.beq k j)) [
  | inl same ↦ changed_same s k j f o h ((key_eq_iff k j).0 same)
  | inr other ↦ rw other (changed_other s k j f o other)
]

change_lem :
    (s : State) (k j : MetricKey) (f : Tags → Tags) → Map.get (change s k f) j ≡ after s k j f
change_lem s k j f = changed_lem s k j f (Map.get s k) refl

pub memory-IsServer : Server memory
memory-IsServer = record {
  stored = λ s k. Map.get s k;
  definition_lem = λ s k. refl;
  create_lem = λ s k j tags. get-put s k j tags;
  delete_tags_lem = λ s k j name value. change_lem s k j (λ t. Map.delete t name);
  update_tags_lem = λ s k j tags. change_lem s k j (λ t. append_tags t tags);
}
