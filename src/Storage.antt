-- ===== src/Storage.antt =====
-- storage/metrics_storage.go: what is written to the Hawkular Metrics server for the messages of
-- the two channels. The client of the Hawkular library is a parameter: what its methods make of the
-- server's state, and what they return. Of an error only its presence matters, as it is only logged.
pub mod Stored
pub mod Consumed
pub mod Counted
pub mod Secret
pub mod Memory
mod Tests
use hawkular_openshift_agent.Base.{
  Eq, Str, String, codes, str_eq, str_eq_iff, str_eq_refl, string_eq, ℕ, zero, suc, ◌+◌, ◌-◌, ◌≤◌,
  ◌<◌, ◌==◌, ==_iff, ltb, leb, ℤ, pos, Bool, true, false, not, ◌&&◌, ◌||◌, ◌≡◌, ◌≢◌, ◌↔◌, ◌⊎◌, inl,
  inr, refl, sym, ap, ◌∙◌, Option, Option-cases, none, some, is_some, List, [], ◌∷◌, ◌++◌,
  append_assoc, append-nil, map, length, All, All-append, In, arith, Bool-cases, if◌then◌else◌,
  Result, ok, err, ◌>>=◌,
}
use hawkular_openshift_agent.Base.Map
use hawkular_openshift_agent.Base.Map.{Map}
use hawkular_openshift_agent.Collector.{Tags, Datapoint, MetricHeader, MetricDefinition}

-- The tenant, the type and the id, which tell a metric of the server.
pub record MetricKey : Type 0 where
  pub tenant : Str
  pub type : Str
  pub id : Str

abbrev key_eq : MetricKey → MetricKey → Bool
key_eq a b = str_eq a.tenant b.tenant && (str_eq a.type b.type && str_eq a.id b.id)

pub key_eq_iff : (a b : MetricKey) → (key_eq a b ≡ true) ↔ (a ≡ b)
key_eq_iff a b =
    ground (arith, str_eq_iff a.tenant b.tenant, str_eq_iff a.type b.type, str_eq_iff a.id b.id)

instance abbrev pub metric_key : Eq MetricKey
metric_key = record { beq = key_eq; beq_iff = key_eq_iff }

-- The methods of the client of the Hawkular library, for values of type `V`.
pub record Client (V : Type 0) : Type 1 where
  pub State : Type 0
  -- Definition: the definition's tags, if there is one, and if there was an error.
  pub definition : State → MetricKey → Option Tags × Bool
  pub create : State → MetricKey → Tags → State
  pub delete_tags : State → MetricKey → Tags → State
  pub update_tags : State → MetricKey → Tags → State
  -- Write, and if there was an error.
  pub write : State → Str → List (MetricHeader V) → State × Bool

-- The entries of a map that another one has too.
unfoldable pub covers : Tags → Tags → Bool
covers [] b = true
covers ((k, v) ∷ a) b = elim (Map.get b k) [ none ↦ false | some w ↦ str_eq v w && covers a b ]

-- reflect.DeepEqual of two maps, where a nil map and an empty one are the same.
unfoldable pub deep_equal : Tags → Tags → Bool
deep_equal a b = covers a b && covers b a

abbrev pub key_in : Str → MetricDefinition → MetricKey
key_in tenant md = record { tenant = tenant; type = md.type; id = md.id }

-- The tenant of a message: that of its first element, else the global one.
unfoldable pub tenant_of : Str → Str → Str
tenant_of global [] = global
tenant_of global (x ∷ tenant) = x ∷ tenant

unfoldable pub data_points : {V : Type 0} → List (MetricHeader V) → ℕ
data_points [] = 0
data_points (m ∷ ms) = length m.samples + data_points ms

module _ {V : Type 0} (c : Client V) where
  -- The loop over the existing tags, which deletes those that the definition no longer has.
  unfoldable pub delete_obsolete : c.State → MetricKey → Tags → Tags → c.State
  delete_obsolete s k [] tags = s
  delete_obsolete s k ((name, value) ∷ existing) tags =
      delete_obsolete (if Map.has tags name then s else c.delete_tags s k ((name, value) ∷ [])) k
        existing tags

  unfoldable pub update_definition : c.State → MetricKey → Tags → Tags → c.State
  update_definition s k existing tags =
      if deep_equal tags existing
      then s
      else c.update_tags (delete_obsolete s k existing tags) k tags

  -- What is done for one definition after it was looked up.
  unfoldable pub put_definition : c.State → MetricKey → Tags → Option Tags × Bool → c.State
  put_definition s k tags (none, false) = c.create s k tags
  put_definition s k tags (none, true) = s
  put_definition s k tags (some existing, failed) = update_definition s k existing tags

  unfoldable pub store_definition : Str → c.State → MetricDefinition → c.State
  store_definition tenant s md =
      put_definition s (key_in tenant md) md.tags (c.definition s (key_in tenant md))

  unfoldable pub store_definitions : Str → c.State → List MetricDefinition → c.State
  store_definitions tenant s [] = s
  store_definitions tenant s (md ∷ mds) =
      store_definitions tenant (store_definition tenant s md) mds

  unfoldable pub consume_definitions : Str → c.State → List MetricDefinition → c.State
  consume_definitions global s [] = s
  consume_definitions global s (md ∷ mds) =
      store_definitions (tenant_of global md.tenant) s (md ∷ mds)

  -- consumeMetricDefinitions, over the messages of the channel.
  unfoldable pub consume_metric_definitions : Str → c.State → List (List MetricDefinition) → c.State
  consume_metric_definitions global s [] = s
  consume_metric_definitions global s (message ∷ messages) =
      consume_metric_definitions global (consume_definitions global s message) messages

  -- The server, and the agent's own metric DataPointsStored.
  pub record Storing : Type 0 where
    pub server : c.State
    pub data_points_stored : ℕ

  unfoldable pub count_written : List (MetricHeader V) → ℕ → c.State × Bool → Storing
  count_written ms n (s, true) = record { server = s; data_points_stored = n }
  count_written ms n (s, false) = record { server = s; data_points_stored = n + data_points ms }

  unfoldable pub consume : Str → Storing → List (MetricHeader V) → Storing
  consume global st [] = st
  consume global st (m ∷ ms) =
      count_written (m ∷ ms) st.data_points_stored
        (c.write st.server (tenant_of global m.tenant) (m ∷ ms))

  unfoldable pub consume_metrics : Str → Storing → List (List (MetricHeader V)) → Storing
  consume_metrics global st [] = st
  consume_metrics global st (message ∷ messages) =
      consume_metrics global (consume global st message) messages
