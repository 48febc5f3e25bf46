-- ===== src/Autonomy/World.antt =====
-- app/autonomy/world_state.py and the states of models.py that it merges: the facts that the
-- runtime holds of the computer. `V` is the type of a dynamic value, `Values` the ways to make one,
-- with `None` and `==`. A time is a number of microseconds and a confidence a number of millionths, so that the
-- lower bound of `max(0.0, ...)` is met by every one. The order of the set `keys` of `diff` is that
-- of the two dictionaries.
pub mod Versions
pub mod Freshness
pub mod Model
pub mod Evidence
use brainless_agent.Common.{
  ℕ, ◌+◌, String, Bool, true, false, not, ◌&&◌, ◌||◌, ◌==◌, Option, none, some, List, [], ◌∷◌, ◌++◌,
  ltb, leb, nat_eq, if◌then◌else◌, contains, map,
}
use brainless_agent.Common.Dict.{Dict, get, put, keys, has}

pub data FactKind : Type 0 where
  observed inferred assumed stale : FactKind

abbrev pub is_stale : FactKind → Bool
is_stale FactKind.stale = true
is_stale kind = false

abbrev pub is_observed : FactKind → Bool
is_observed FactKind.observed = true
is_observed kind = false

-- `kind is other`
unfoldable pub same_kind : FactKind → FactKind → Bool
same_kind observed observed = true
same_kind inferred inferred = true
same_kind assumed assumed = true
same_kind stale stale = true
same_kind kind other = false

pub record Values (V : Type 0) : Type 0 where
  pub text : String → V
  pub texts : List String → V
  pub time : ℕ → V
  pub nothing : V
  pub same : V → V → Bool

-- Sizes and positions on the screen are pairs of integers; nothing here looks into them.
pub record ComputerState (V : Type 0) : Type 0 where
  pub timestamp : ℕ
  pub active_application : Option String
  pub active_window : Option String
  pub screen_size : Option V
  pub screenshot_reference : Option String
  pub cursor_position : Option V
  pub visible_ui : List String
  pub browser_url : Option String
  pub browser_title : Option String
  pub clipboard : Option String
  pub running_processes : List String
  pub recent_actions : List String
  pub last_action_result : Option String
  pub errors : List String
  pub progress : Option String

pub record WorldFact (V : Type 0) : Type 0 where
  pub value : V
  pub kind : FactKind
  pub source : String
  pub timestamp : ℕ
  pub confidence : ℕ
  pub evidence : Option String
  pub version : ℕ

pub record WorldSnapshot (V : Type 0) : Type 0 where
  pub version : ℕ
  pub captured_at : ℕ
  pub facts : Dict (WorldFact V)

pub record WorldState (V : Type 0) : Type 0 where
  pub stale_after : ℕ
  pub version : ℕ
  pub facts : Dict (WorldFact V)

-- `WorldStateManager(stale_after)`
abbrev pub new_world : {V : Type 0} → ℕ → WorldState V
new_world stale_after = record { stale_after = stale_after; version = 0; facts = [] }

-- `max(0.0, min(1.0, confidence))`
abbrev pub clamp : ℕ → ℕ
clamp confidence = if ltb 1000000 confidence then 1000000 else confidence

-- `WorldSnapshot.values`
unfoldable pub fact_values : {V : Type 0} → Dict (WorldFact V) → Dict V
fact_values [] = []
fact_values ((key, fact) ∷ facts) = (key, fact.value) ∷ fact_values facts

module _ {V : Type 0} (values : Values V) where
  abbrev text_field : Option String → Option V
  text_field none = none
  text_field (some t) = some (values.text t)

  -- `asdict(state).items()` less the timestamp, with `none` for `None`
  unfoldable pub items : ComputerState V → List (String × Option V)
  items state =
      ("active_application", text_field state.active_application)
      ∷ ("active_window", text_field state.active_window)
      ∷ ("screen_size", state.screen_size)
      ∷ ("screenshot_reference", text_field state.screenshot_reference)
      ∷ ("cursor_position", state.cursor_position)
      ∷ ("visible_ui", some (values.texts state.visible_ui))
      ∷ ("browser_url", text_field state.browser_url)
      ∷ ("browser_title", text_field state.browser_title)
      ∷ ("clipboard", text_field state.clipboard)
      ∷ ("running_processes", some (values.texts state.running_processes))
      ∷ ("recent_actions", some (values.texts state.recent_actions))
      ∷ ("last_action_result", text_field state.last_action_result)
      ∷ ("errors", some (values.texts state.errors))
      ∷ ("progress", text_field state.progress)
      ∷ []

  -- The item of a field; `none` for no such field and for `None` in it.
  unfoldable pub item_of : String → List (String × Option V) → Option V
  item_of key [] = none
  item_of key ((name, value) ∷ rest) = if name == key then value else item_of key rest

  -- `getattr(state, key, None)` for the fields of the class
  unfoldable pub getattr : ComputerState V → String → Option V
  unfolding items item_of
  getattr state key =
      if key == "timestamp" then some (values.time state.timestamp) else item_of key (items state)

  -- `ComputerState.compact` for the names of fields
  unfoldable pub compact : ComputerState V → List String → Dict (Option V)
  unfolding getattr
  compact state [] = []
  compact state (field ∷ fields) = put field (getattr state field) (compact state fields)

  abbrev same_option : Option V → Option V → Bool
  same_option none none = true
  same_option (some a) (some b) = values.same a b
  same_option none (some b) = false
  same_option (some a) none = false

  -- The comprehension of `ComputerState.diff` over the fields but the timestamp
  unfoldable pub changed_fields :
      ComputerState V → List (String × Option V) → Dict (Option V × Option V)
  unfolding getattr
  changed_fields later [] = []
  changed_fields later ((field, value) ∷ rest) =
      if same_option value (getattr later field)
      then changed_fields later rest
      else (field, (value, getattr later field)) ∷ changed_fields later rest

  unfoldable pub state_diff : ComputerState V → ComputerState V → Dict (Option V × Option V)
  unfolding items changed_fields
  state_diff state later = changed_fields later (items state)

-- The body of the loop of `capture`, for one item.
abbrev pub fact_at :
    {V : Type 0} (source : String) (evidence : Option String) (confidence timestamp version : ℕ)
    (value : V)
    → WorldFact V
fact_at source evidence confidence timestamp version value = record {
  value = value;
  kind = FactKind.observed;
  source = source;
  timestamp = timestamp;
  confidence = clamp confidence;
  evidence = evidence;
  version = version;
}

abbrev pub merge_item :
    {V : Type 0} → (V → WorldFact V) → String → Option V → Dict (WorldFact V) → Dict (WorldFact V)
merge_item fact name none facts = facts
merge_item fact name (some value) facts = put name (fact value) facts

unfoldable pub merge_items :
    {V : Type 0}
    → (V → WorldFact V)
    → List (String × Option V)
    → Dict (WorldFact V)
    → Dict (WorldFact V)
merge_items fact [] facts = facts
merge_items fact ((name, value) ∷ rest) facts =
    merge_items fact rest (merge_item fact name value facts)

-- `now - fact.timestamp > self.stale_after` for a fact that is not stale yet
abbrev pub expires : {V : Type 0} → ℕ → ℕ → WorldFact V → Bool
expires now stale_after fact = not (is_stale fact.kind) && ltb (fact.timestamp + stale_after) now

abbrev pub spoil : {V : Type 0} → ℕ → WorldFact V → WorldFact V
spoil version fact = record fact { kind = FactKind.stale; version = version }

-- The loop of `invalidate_stale` over the items: the version after it, the facts, and the names of
-- those that it made stale.
unfoldable pub invalidate :
    {V : Type 0} (now stale_after version : ℕ)
    → Dict (WorldFact V)
    → ℕ × Dict (WorldFact V) × List String
invalidate now stale_after version [] = (version, [], [])
invalidate now stale_after version ((key, fact) ∷ facts) =
    let old = expires now stale_after fact in
    let here = if old then version + 1 else version in
    let (version', rest, names) = invalidate now stale_after here facts in
    (
      version',
      (key, if old then spoil here fact else fact) ∷ rest,
      if old then key ∷ names else names,
    )

unfoldable pub invalidate_stale : {V : Type 0} → ℕ → WorldState V → List String × WorldState V
unfolding invalidate
invalidate_stale now w =
    let (version, facts, names) = invalidate now w.stale_after w.version w.facts in
    (names, record w { version = version; facts = facts })

unfoldable pub snapshot : {V : Type 0} → ℕ → WorldState V → WorldSnapshot V × WorldState V
unfolding invalidate_stale
snapshot now w =
    let (names, w') = invalidate_stale now w in
    (record { version = w'.version; captured_at = now; facts = w'.facts }, w')

-- `capture`, less the snapshot that it ends with
unfoldable pub observe_state :
    {V : Type 0} (values : Values V) (source : String) (evidence : Option String) (confidence : ℕ)
    (state : ComputerState V)
    → WorldState V
    → WorldState V
unfolding merge_items items
observe_state values source evidence confidence state w =
    let version = w.version + 1 in
    record w {
      version = version;
      facts =
          merge_items (fact_at source evidence confidence state.timestamp version)
            (items values state) w.facts;
    }

unfoldable pub capture :
    {V : Type 0} (values : Values V) (now : ℕ) (source : String) (evidence : Option String)
    (confidence : ℕ) (state : ComputerState V)
    → WorldState V
    → WorldSnapshot V × WorldState V
unfolding snapshot observe_state
capture values now source evidence confidence state w =
    snapshot now (observe_state values source evidence confidence state w)

-- `WorldStateManager.record`
unfoldable pub record_fact :
    {V : Type 0} (now : ℕ) (key : String) (value : V) (kind : FactKind) (source : String)
    (confidence : ℕ) (evidence : Option String)
    → WorldState V
    → WorldFact V × WorldState V
record_fact now key value kind source confidence evidence w =
    let fact = record (fact_at source evidence confidence now (w.version + 1) value) {
      kind = kind;
    } in
    (fact, record w { version = w.version + 1; facts = put key fact w.facts })

abbrev pub if_observed : {V : Type 0} → Bool → Option (WorldFact V) → Option (WorldFact V)
if_observed require_observed none = none
if_observed require_observed (some fact) =
    if not require_observed || is_observed fact.kind then some fact else none

-- `WorldStateManager.get`
unfoldable pub get_fact :
    {V : Type 0} (now : ℕ) (key : String) (require_observed : Bool)
    → WorldState V
    → Option (WorldFact V) × WorldState V
unfolding invalidate_stale
get_fact now key require_observed w =
    let (names, w') = invalidate_stale now w in
    (if_observed require_observed (get key w'.facts), w')

-- `a == b` for two facts, and for two look-ups of one
abbrev same_text : Option String → Option String → Bool
same_text none none = true
same_text (some a) (some b) = a == b
same_text none (some b) = false
same_text (some a) none = false

abbrev pub same_fact : {V : Type 0} → (V → V → Bool) → WorldFact V → WorldFact V → Bool
same_fact same a b =
    same a.value b.value
    && same_kind a.kind b.kind
    && (a.source == b.source)
    && nat_eq a.timestamp b.timestamp
    && nat_eq a.confidence b.confidence
    && same_text a.evidence b.evidence
    && nat_eq a.version b.version

abbrev pub same_found :
    {V : Type 0} → (V → V → Bool) → Option (WorldFact V) → Option (WorldFact V) → Bool
same_found same none none = true
same_found same (some a) (some b) = same_fact same a b
same_found same none (some b) = false
same_found same (some a) none = false

abbrev value_of : {V : Type 0} → Option (WorldFact V) → Option V
value_of none = none
value_of (some fact) = some fact.value

-- The comprehension of `diff` over some of the keys
unfoldable pub diff_over :
    {V : Type 0} (same : V → V → Bool) (before after : Dict (WorldFact V))
    → List String
    → Dict (Option V × Option V)
diff_over same before after [] = []
diff_over same before after (key ∷ rest) =
    if same_found same (get key before) (get key after)
    then diff_over same before after rest
    else (key, (value_of (get key before), value_of (get key after)))
      ∷ diff_over same before after rest

-- The keys of `after` that are not in `before`
unfoldable pub new_keys : List String → List String → List String
unfolding contains
new_keys old [] = []
new_keys old (key ∷ rest) = if contains key old then new_keys old rest else key ∷ new_keys old rest

unfoldable pub diff :
    {V : Type 0} → (V → V → Bool) → WorldSnapshot V → WorldSnapshot V → Dict (Option V × Option V)
unfolding diff_over new_keys
diff same before after =
    diff_over same before.facts after.facts
      (keys before.facts ++ new_keys (keys before.facts) (keys after.facts))
