-- ===== src/Ot/Manager/Tests.antt =====
-- A manager with one real and one mock executor, in a world that counts initializations.
use pcag.Ot.Manager.NoMock.{run-AllReal, AllReal, OnlyReal}
use pcag.Base.{ℕ, ◌+◌, ◌≡◌, refl, true, false, none, some, [], ◌∷◌}
use pcag.Base.Dict.{get, put}
use pcag.Ot.Manager.{
  shutdown_all, reset, get_executor, run, Manager, Config, Plugins, ok, raised, modbus, get_for,
  reset_all, mock_forbidden,
}

abbrev config : Config ℕ
config = record {
  asset_map = ("arm", "line") ∷ ("toy", "bench") ∷ [];
  executors =
      ("line", record { empty = false; type = some "modbus"; config = some 502 })
      ∷ ("bench", record { empty = false; type = none; config = none })
      ∷ [];
}

abbrev plugins : Plugins ℕ ℕ ℕ
plugins = record {
  load_config = λ w. some config;
  initialize = λ p c w. (some w, w + 1);
  shutdown = λ x w. w;
}

abbrev fresh : Manager ℕ ℕ
fresh = record { instances = []; config = none }

-- The executor of the arm is made once, and again after a reset; a missing type is a mock.
calls_lem :
    (run plugins true
      (get_for "arm" ∷ get_for "toy" ∷ get_for "arm" ∷ reset_all ∷ get_for "arm" ∷ [])
      fresh
      0).0
    ≡ ok (record { plugin = modbus; executor = 0 })
      ∷ raised mock_forbidden
      ∷ ok (record { plugin = modbus; executor = 0 })
      ∷ ok (record { plugin = modbus; executor = 1 })
      ∷ []
unfolding run get_executor reset shutdown_all get put
calls_lem = refl

fresh-OnlyReal : OnlyReal fresh
unfolding get
fresh-OnlyReal name e q = cc

run-AllReal_example :
    AllReal
      (run plugins true (get_for "arm" ∷ get_for "toy" ∷ reset_all ∷ get_for "arm" ∷ []) fresh 0).0
run-AllReal_example =
    run-AllReal plugins (get_for "arm" ∷ get_for "toy" ∷ reset_all ∷ get_for "arm" ∷ []) fresh 0
      fresh-OnlyReal
