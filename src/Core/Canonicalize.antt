-- ===== src/Core/Canonicalize.antt =====
-- pcag/core/utils/canonicalize.py: one text for each JSON value, whatever the order of the keys.
use Prim.Native.String.{compare}
use text.Mathlib.Text.{is_lt}
use pcag.Base.{String, true, false, List, [], ◌∷◌, if◌then◌else◌}
use pcag.Core.Text.{concat, int_text, dumps}
use pcag.Core.Json.{Number, Json, Items, Fields}

-- `",".join(texts)`
abbrev pub join : List String → String
join [] = ""
join (s ∷ []) = s
join (s ∷ t ∷ ss) = concat (s ∷ "," ∷ join (t ∷ ss) ∷ [])

-- `sorted` by the keys, here of the entries' texts.
unfoldable pub insert : String × String → List (String × String) → List (String × String)
insert e [] = e ∷ []
insert e (f ∷ fs) = if is_lt (compare f.0 e.0) then f ∷ insert e fs else e ∷ f ∷ fs

-- `f'{json.dumps(key)}:{…}'`
abbrev entry_text : String × String → String
entry_text (k, v) = concat (dumps k ∷ ":" ∷ v ∷ [])

abbrev pub entry_texts : List (String × String) → List String
entry_texts [] = []
entry_texts (e ∷ es) = entry_text e ∷ entry_texts es

module _ {F : Type 0} (format3 : F → String) where
  abbrev number_text : Number F → String
  number_text (Number.int n) = int_text n
  number_text (Number.float x) = format3 x

  -- `format3 x` is `f"{round(x, 3):.3f}"`.
  unfoldable mutual
    pub canonicalize : Json F → String
    canonicalize Json.null = "null"
    canonicalize (Json.bool true) = "true"
    canonicalize (Json.bool false) = "false"
    canonicalize (Json.num n) = number_text n
    canonicalize (Json.str s) = dumps s
    canonicalize (Json.arr xs) = concat ("[" ∷ join (canonical_items xs) ∷ "]" ∷ [])
    canonicalize (Json.obj fs) = concat ("{" ∷ join (entry_texts (canonical_entries fs)) ∷ "}" ∷ [])

    pub canonical_items : Items F → List String
    canonical_items Items.nil = []
    canonical_items (Items.cons x xs) = canonicalize x ∷ canonical_items xs

    -- The entries with the texts of their values, sorted.
    pub canonical_entries : Fields F → List (String × String)
    canonical_entries Fields.end = []
    canonical_entries (Fields.field k v fs) = insert (k, canonicalize v) (canonical_entries fs)
