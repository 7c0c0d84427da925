-- ===== src/Store/Json.antt =====
-- internal/broker/store/sqlite_values.go, `encodeJSON` and `decodeJSON`: the columns that hold JSON.
-- The values of package encoding/json that a column holds are the record `Json`; `none` is NULL.
use certplane.Base.{true, false, ◌≡◌, Option, none, some, List, Result, ok, err, if◌then◌else◌}
use certplane.Base.Text.{Text, codes, is_empty, text_eq}
use certplane.Base.Dict.{Dict}
use certplane.Audit.Recorders.{RecordError}
use certplane.Store.{StoreError, decoding}

-- `json.Marshal` and `json.Unmarshal` at one type. An empty list and an empty map stand for nil,
-- which is marshaled to the text `null`.
pub record Codec (A : Type 0) : Type 0 where
  pub marshal : A → Option Text
  pub unmarshal : Text → Option A

pub record Json : Type 0 where
  pub names : Codec (List Text)
  pub metadata : Codec (Dict Text)

abbrev pub null : Text
null = codes "null"

-- What the code relies on: a value for which `P` holds is read back from the text it is marshaled to,
-- which is not empty, and only the zero value is marshaled to `null`.
pub record IsCodec {A : Type 0} (P : A → Type 0) (zero_value : A) (c : Codec A) : Type 0 where
  pub filled : (a : A) (s : Text) → P a → c.marshal a ≡ some s → is_empty s ≡ false
  pub null_zero :
      (a : A) (s : Text) → P a → c.marshal a ≡ some s → text_eq s null ≡ true → a ≡ zero_value
  pub unmarshal_marshal : (a : A) (s : Text) → P a → c.marshal a ≡ some s → c.unmarshal s ≡ some a

encoded : Option Text → Result RecordError (Option Text)
encoded none = err RecordError.marshaling
encoded (some text) = ok (if text_eq text null then none else some text)

unfoldable pub encode_json : {A : Type 0} → Codec A → A → Result RecordError (Option Text)
unfolding encoded
encode_json c value = encoded (c.marshal value)

decoded : {A : Type 0} → Option A → Result StoreError A
decoded none = err decoding
decoded (some value) = ok value

-- The destination keeps its zero value `dst` where there is nothing to decode.
unfoldable pub decode_json : {A : Type 0} → Codec A → Option Text → A → Result StoreError A
unfolding decoded
decode_json c none dst = ok dst
decode_json c (some value) dst = if is_empty value then ok dst else decoded (c.unmarshal value)
