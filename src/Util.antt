-- ===== src/Util.antt =====
-- `to_jsonable` of src/ancestree/util.py on Python values.
pub mod Native
use ancestree.Prelude.{ℕ, String, ◌==◌, Bool, true, false, ◌||◌, if◌then◌else◌}

-- The key of a dict: a text, or anything else by its `str`.
pub data Key : Type 0 where
  text_key other_key : String → Key

-- Numbers by their codes. `temporal` is a datetime, or what else has an `isoformat`, by that text;
-- `collection` a tuple or a set in the order it is walked; `array` a numpy array of positive dimension
-- by its `tolist`; `scalar` a numpy scalar by its `item`; `path` a Path by its text and its suffix;
-- `frame` a DataFrame by the columns and the data of its split; `opaque` any other object.
mutual
  pub data Value : Type 0 where
    null : Value
    boolean : Bool → Value
    integer floating : ℕ → Value
    str temporal : String → Value
    mapping : Entries → Value
    sequence collection : Items → Value
    array scalar : Value → Value
    path : String → String → Value
    frame : Items → Items → Value
    opaque : Value

  pub data Items : Type 0 where
    done : Items
    item : Value → Items → Items

  pub data Entries : Type 0 where
    end : Entries
    field : Key → Value → Entries → Entries

abbrev pub key_text : Key → String
key_text (text_key s) = s
key_text (other_key s) = s

-- `key is not k`
abbrev pub key_changed : Key → Bool
key_changed (text_key s) = false
key_changed (other_key s) = true

-- `out[key] = value`
unfoldable pub set_entry : String → Value → Entries → Entries
set_entry key value end = field (text_key key) value end
set_entry key value (field k v es) =
    let rest = set_entry key value es in
    if key_text k == key then field k value es else field k v rest

-- `convert`, and whether it has set `changed`.
unfoldable mutual
  pub convert : Value → Value × Bool
  convert null = (null, false)
  convert (boolean b) = (boolean b, false)
  convert (integer n) = (integer n, false)
  convert (floating n) = (floating n, false)
  convert (str s) = (str s, false)
  convert (temporal s) = (str s, true)
  convert (mapping es) = let (out, changed) = convert_entries es end in (mapping out, changed)
  convert (sequence vs) = let (out, changed) = convert_items vs in (sequence out, changed)
  convert (collection vs) = let (out, changed) = convert_items vs in (sequence out, true)
  convert (array v) = let (out, changed) = convert v in (out, true)
  convert (scalar v) = let (out, changed) = convert v in (out, true)
  convert (path s suffix) = (path s suffix, false)
  convert (frame columns rows) = (frame columns rows, false)
  convert opaque = (opaque, false)

  pub convert_items : Items → Items × Bool
  convert_items done = (done, false)
  convert_items (item v vs) =
      let (out, changed) = convert v in
      let (rest, later) = convert_items vs in (item out rest, changed || later)

  -- The entries walked go into the dict that holds those before them.
  pub convert_entries : Entries → Entries → Entries × Bool
  convert_entries end out = (out, false)
  convert_entries (field k v es) out =
      let (value, changed) = convert v in
      let (rest, later) = convert_entries es (set_entry (key_text k) value out) in
      (rest, key_changed k || changed || later)

abbrev pub to_jsonable : Value → Value × Bool
to_jsonable = convert
