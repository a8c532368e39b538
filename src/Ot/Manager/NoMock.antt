-- ===== src/Ot/Manager/NoMock.antt =====
-- In production no executor is a mock; an executor is made once.
use pcag.Base.{
  subst, ◌≡◌, ◌⊎◌, inl, inr, refl, arith, String, true, Option, none, some, List, [], ◌∷◌, str_eq,
  Bool-cases,
}
use pcag.Base.Dict.{get-put_cases, get}
use pcag.Ot.Manager.{
  Call, type_or_mock, with_config, load_registry, configured, create, reused, reset, for_name,
  ExecutorConf, Config, run, Instance, initialized, plugin_named, get_executor, Error, Manager,
  Plugins, Answer, Plugin, ok, raised, plc_adapter, modbus, mock, get_for, reset_all,
}

-- The plugin of an answer.
abbrev pub IsReal : Plugin → Type 0
IsReal plc_adapter = Unit {0}
IsReal modbus = Unit {0}
IsReal mock = ⊥

module _ {X : Type 0} where
  abbrev pub AnswerIsReal : Answer X → Type 0
  AnswerIsReal (ok e) = IsReal e.plugin
  AnswerIsReal (raised e) = Unit {0}

  abbrev pub AllReal : List (Answer X) → Type 0
  AllReal [] = Unit {0}
  AllReal (r ∷ rs) = AnswerIsReal r × AllReal rs

module _ {C X : Type 0} where
  -- Every executor that the manager has is of a real plugin.
  abbrev pub OnlyReal : Manager C X → Type 0
  OnlyReal m = (name : String) (e : Instance X) → get name m.instances ≡ some e → IsReal e.plugin

plugin_named-IsReal : (type : String) (p : Plugin) → plugin_named true type ≡ inl p → IsReal p
plugin_named-IsReal type plc_adapter h = tt
plugin_named-IsReal type modbus h = tt
plugin_named-IsReal type mock h = ground (arith, h)

module _ {C X W : Type 0} (plugins : Plugins C X W) where
  abbrev Real : Answer X × Manager C X × W → Type 0
  Real (r, m, w) = AnswerIsReal r × OnlyReal m

  initialized-Real :
      (name : String) (p : Plugin) (m : Manager C X) (r : Option X × W)
      → IsReal p
      → OnlyReal m
      → Real (initialized plugins true name p m r)
  initialized-Real name p m (none, w) h v = (tt, v)
  initialized-Real name p m (some x, w) h v = (
    h,
    λ n e q. elim (get-put_cases name n _ e m.instances q) [
      | inl (_, same) ↦ subst (λ (t : Instance X). IsReal t.plugin) same h
      | inr old ↦ v n e old
    ],
  )

  create-Real :
      (name type : String) (config : Option C) (o : Plugin ⊎ Error) (m : Manager C X) (w : W)
      → plugin_named true type ≡ o
      → OnlyReal m
      → Real (create plugins true name config o m w)
  create-Real name type config (inr e) m w q v = (tt, v)
  create-Real name type config (inl p) m w q v =
      initialized-Real name p m (plugins.initialize p config w) (plugin_named-IsReal type p q) v

  configured-Real :
      (name : String) (o : Option (ExecutorConf C)) (m : Manager C X) (w : W)
      → OnlyReal m
      → Real (configured plugins true name o m w)
  configured-Real name none m w v = (tt, v)
  configured-Real name (some c) m w v = elim (Bool-cases c.empty) [
    | inl e ↦ simp e (tt, v)
    | inr e ↦ simp e (create-Real name (type_or_mock c.type) c.config _ m w refl v)
  ]

  reused-Real :
      (name : String) (config : Config C) (o : Option (Instance X)) (m : Manager C X) (w : W)
      → get name m.instances ≡ o
      → OnlyReal m
      → Real (reused plugins true name config o m w)
  reused-Real name config none m w q v = configured-Real name (get name config.executors) m w v
  reused-Real name config (some e) m w q v = (v name e q, v)

  for_name-Real :
      (config : Config C) (o : Option String) (m : Manager C X) (w : W)
      → OnlyReal m
      → Real (for_name plugins true config o m w)
  for_name-Real config none m w v = (tt, v)
  for_name-Real config (some name) m w v = elim (Bool-cases (str_eq name "")) [
    | inl e ↦ simp e (tt, v)
    | inr e ↦ simp e (reused-Real name config (get name m.instances) m w refl v)
  ]

  with_config-Real :
      (a : String) (o : Option (Config C)) (m : Manager C X) (w : W)
      → OnlyReal m
      → Real (with_config plugins true a o m w)
  with_config-Real a none m w v = (tt, v)
  with_config-Real a (some config) m w v =
      for_name-Real config (get a config.asset_map) (record m { config = some config }) w v

  get_executor-Real :
      (a : String) (m : Manager C X) (w : W) → OnlyReal m → Real (get_executor plugins true a m w)
  unfolding get_executor
  get_executor-Real a m w v = with_config-Real a (load_registry plugins true m w) m w v

  -- In production, no call of the manager answers with a mock executor, whatever the configuration
  -- is, in any sequence of calls that begins without one.
  pub run-AllReal :
      (calls : List Call) (m : Manager C X) (w : W)
      → OnlyReal m
      → AllReal (run plugins true calls m w).0
  unfolding run reset get
  run-AllReal [] m w v = tt
  run-AllReal (get_for a ∷ calls) m w v =
      let r = get_executor plugins true a m w in
      let (h, v') = get_executor-Real a m w v in (h, run-AllReal calls r.1 r.2 v')
  run-AllReal (reset_all ∷ calls) m w v = run-AllReal calls _ _ (λ name e q. cc)
