-- ===== src/Util/Native.antt =====
-- What `to_jsonable` makes of a value, and that it leaves JSON-native values alone.
use ancestree.Prelude.{
  String, text_discrete, ◌==◌, ◌≡◌, refl, ap, ap₂, sym, ◌∙◌, Bool, true, false, not, ◌||◌, ◌&&◌,
  arith,
}
use ancestree.Util.{
  Key, text_key, other_key, Value, null, boolean, integer, floating, str, temporal, mapping,
  sequence, collection, array, scalar, path, frame, opaque, Items, done, item, Entries, end, field,
  key_text, key_changed, set_entry, convert, convert_items, convert_entries, to_jsonable,
}

unfoldable pub has_key : Entries → String → Bool
has_key end key = false
has_key (field k v es) key = (key_text k == key) || has_key es key

abbrev pub is_text : Key → Bool
is_text (text_key s) = true
is_text (other_key s) = false

-- What JSON has: the dicts with texts as keys, each once.
unfoldable mutual
  pub native : Value → Bool
  native null = true
  native (boolean b) = true
  native (integer n) = true
  native (floating n) = true
  native (str s) = true
  native (temporal s) = false
  native (mapping es) = native_entries es
  native (sequence vs) = native_items vs
  native (collection vs) = false
  native (array v) = false
  native (scalar v) = false
  native (path s suffix) = false
  native (frame columns rows) = false
  native opaque = false

  pub native_items : Items → Bool
  native_items done = true
  native_items (item v vs) = native v && native_items vs

  pub native_entries : Entries → Bool
  native_entries end = true
  native_entries (field k v es) =
      is_text k && native v && not (has_key es (key_text k)) && native_entries es

-- Made of what `convert` knows: no path, no DataFrame and no other object within.
unfoldable mutual
  pub recognised : Value → Bool
  recognised null = true
  recognised (boolean b) = true
  recognised (integer n) = true
  recognised (floating n) = true
  recognised (str s) = true
  recognised (temporal s) = true
  recognised (mapping es) = recognised_entries es
  recognised (sequence vs) = recognised_items vs
  recognised (collection vs) = recognised_items vs
  recognised (array v) = recognised v
  recognised (scalar v) = recognised v
  recognised (path s suffix) = false
  recognised (frame columns rows) = false
  recognised opaque = false

  pub recognised_items : Items → Bool
  recognised_items done = true
  recognised_items (item v vs) = recognised v && recognised_items vs

  pub recognised_entries : Entries → Bool
  recognised_entries end = true
  recognised_entries (field k v es) = recognised v && recognised_entries es

has_key-set_entry :
    (key : String) (v : Value) (es : Entries) (k : String)
    → has_key (set_entry key v es) k ≡ ((key == k) || has_key es k)
unfolding has_key set_entry
has_key-set_entry key v end k = ground arith
has_key-set_entry key v (field j w es) k = elim (text_discrete (key_text j) key) [
  | yes e ↦ let same : (key_text j == k) ≡ (key == k) = ap (λ i. i == k) e in ground arith
  | no e ↦ ground (arith, has_key-set_entry key v es k)
]

native_entries-set_entry :
    (key : String) (v : Value) (es : Entries)
    → native v ≡ true
    → native_entries es ≡ true
    → native_entries (set_entry key v es) ≡ true
unfolding native has_key set_entry
native_entries-set_entry key v end h k = ground arith
native_entries-set_entry key v (field j w es) h k = elim (text_discrete (key_text j) key) [
  | yes e ↦ ground arith
  | no e ↦
      ground (arith, native_entries-set_entry key v es, has_key-set_entry key v es (key_text j))
]

mutual
  unfolding convert native recognised

  convert-native : (v : Value) → recognised v ≡ true → native (convert v).0 ≡ true
  convert-native null h = refl
  convert-native (boolean b) h = refl
  convert-native (integer n) h = refl
  convert-native (floating n) h = refl
  convert-native (str s) h = refl
  convert-native (temporal s) h = refl
  convert-native (mapping es) h = convert_entries-native es end refl h
  convert-native (sequence vs) h = convert_items-native vs h
  convert-native (collection vs) h = convert_items-native vs h
  convert-native (array v) h = convert-native v h
  convert-native (scalar v) h = convert-native v h
  convert-native (path s suffix) h = cc
  convert-native (frame columns rows) h = cc
  convert-native opaque h = cc

  convert_items-native :
      (vs : Items) → recognised_items vs ≡ true → native_items (convert_items vs).0 ≡ true
  convert_items-native done h = refl
  convert_items-native (item v vs) h =
      ground (arith, convert-native v (ground arith), convert_items-native vs (ground arith))

  convert_entries-native :
      (es out : Entries)
      → native_entries out ≡ true
      → recognised_entries es ≡ true
      → native_entries (convert_entries es out).0 ≡ true
  convert_entries-native end out k h = k
  convert_entries-native (field j v es) out k h =
      convert_entries-native es (set_entry (key_text j) (convert v).0 out)
        (native_entries-set_entry (key_text j) (convert v).0 out (convert-native v (ground arith))
          k)
        (ground arith)

unfoldable append : Entries → Entries → Entries
append end fs = fs
append (field k v es) fs = field k v (append es fs)

append-end : (es : Entries) → append es end ≡ es
unfolding append
append-end end = refl
append-end (field k v es) = ap (field k v) (append-end es)

append_assoc : (es fs gs : Entries) → append (append es fs) gs ≡ append es (append fs gs)
unfolding append
append_assoc end fs gs = refl
append_assoc (field k v es) fs gs = ap (field k v) (append_assoc es fs gs)

has_key-append :
    (es fs : Entries) (k : String) → has_key (append es fs) k ≡ (has_key es k || has_key fs k)
unfolding has_key append
has_key-append end fs k = refl
has_key-append (field j v es) fs k = ground (arith, has_key-append es fs k)

set_entry_new :
    (key : String) (v : Value) (es : Entries)
    → has_key es key ≡ false
    → set_entry key v es ≡ append es (field (text_key key) v end)
unfolding has_key set_entry append
set_entry_new key v end h = refl
set_entry_new key v (field j w es) h = ground (arith, set_entry_new key v es)

text_key-text : (k : Key) → is_text k ≡ true → text_key (key_text k) ≡ k
text_key-text (text_key s) h = refl
text_key-text (other_key s) h = cc

key_changed-text : (k : Key) → is_text k ≡ true → key_changed k ≡ false
key_changed-text (text_key s) h = refl
key_changed-text (other_key s) h = cc

text_eq_sym : (s t : String) → (s == t) ≡ (t == s)
text_eq_sym s t = elim (text_discrete s t) [
  | yes e ↦ ap₂ (λ a b. a == b) e (sym e)
  | no e ↦ ground (arith, λ (q : t ≡ s). e (sym q))
]

-- No key of one dict is one of the other.
abbrev apart : Entries → Entries → Bool
apart end out = true
apart (field k v es) out = not (has_key out (key_text k)) && apart es out

apart-append :
    (es out : Entries) (k : Key) (v : Value)
    → apart es out ≡ true
    → has_key es (key_text k) ≡ false
    → apart es (append out (field k v end)) ≡ true
unfolding has_key
apart-append end out k v h q = refl
apart-append (field j w es) out k v h q = ground (
  arith,
  has_key-append out (field k v end) (key_text j),
  apart-append es out k v,
  text_eq_sym (key_text j) (key_text k),
)

apart_end : (es : Entries) → apart es end ≡ true
unfolding has_key
apart_end end = refl
apart_end (field k v es) = ground (arith, apart_end es)

mutual
  unfolding convert native append

  convert-same : (v : Value) → native v ≡ true → convert v ≡ (v, false)
  convert-same null h = refl
  convert-same (boolean b) h = refl
  convert-same (integer n) h = refl
  convert-same (floating n) h = refl
  convert-same (str s) h = refl
  convert-same (temporal s) h = cc
  convert-same (mapping es) h =
      ap (λ r. (mapping r.0, r.1)) (convert_entries-same es end h (apart_end es))
  convert-same (sequence vs) h = ap (λ r. (sequence r.0, r.1)) (convert_items-same vs h)
  convert-same (collection vs) h = cc
  convert-same (array v) h = cc
  convert-same (scalar v) h = cc
  convert-same (path s suffix) h = cc
  convert-same (frame columns rows) h = cc
  convert-same opaque h = cc

  convert_items-same : (vs : Items) → native_items vs ≡ true → convert_items vs ≡ (vs, false)
  convert_items-same done h = refl
  convert_items-same (item v vs) h =
      ap₂ (λ r s. (item r.0 s.0, r.1 || s.1)) (convert-same v (ground arith))
        (convert_items-same vs (ground arith))

  convert_entries-same :
      (es out : Entries)
      → native_entries es ≡ true
      → apart es out ≡ true
      → convert_entries es out ≡ (append out es, false)
  convert_entries-same end out h q = ap (λ r. (r, false)) (sym (append-end out))
  convert_entries-same (field k v es) out h q =
      let out' = append out (field k v end) in
      let text : is_text k ≡ true = ground arith in
      let set : set_entry (key_text k) v out ≡ out' =
        set_entry_new (key_text k) v out (ground arith)
        ∙ ap (λ j. append out (field j v end)) (text_key-text k text) in
      ap
        (λ r. (
          (convert_entries es (set_entry (key_text k) r.0 out)).0,
          key_changed k || r.1 || (convert_entries es (set_entry (key_text k) r.0 out)).1,
        ))
        (convert-same v (ground arith))
      ∙ ap₂ (λ o c. ((convert_entries es o).0, c || false || (convert_entries es o).1)) set
          (key_changed-text k text)
      ∙ ap (λ r. (r.0, r.1))
          (convert_entries-same es out' (ground arith)
            (apart-append es out k v (ground arith) (ground arith)))
      ∙ ap (λ es'. (es', false)) (append_assoc out (field k v end) es)

-- A value made of what the function knows becomes a JSON-native one, however deep it is nested, and
-- a second pass finds nothing to coerce in it: it comes back untouched, and not as changed.
pub to_jsonable-native :
    (v : Value)
    → recognised v ≡ true
    → (native (to_jsonable v).0 ≡ true)
      × (to_jsonable (to_jsonable v).0 ≡ ((to_jsonable v).0, false))
to_jsonable-native v h = (convert-native v h, convert-same (to_jsonable v).0 (convert-native v h))

-- A value that is JSON-native already comes back untouched, and not as changed.
pub to_jsonable-same : (v : Value) → native v ≡ true → to_jsonable v ≡ (v, false)
to_jsonable-same v h = convert-same v h
