-- ===== src/Table/Messages/Fields.antt =====
-- What a reader finds in the message of a row's update.
use exio.Prelude.{
  ◌≡◌, refl, ap, ◌∙◌, Option, none, some, [], ◌∷◌, if◌then◌else◌, Bytes, codes, str_eq, str_eq_iff,
  arith,
}
use exio.Dict.{Dict, lookup}
use exio.Sam.Container.{
  TxMessage, set_type, put_field, put_child, set_child, set_field, child_items, find_child,
  find_field, add_child, add_field, add_items,
}
use exio.Sam.Container.Lookup.{or_else}
use exio.Sam.Path.{find_field_at, put_field_at, put_child_at, find_tree, at_tree}
use exio.Sam.Path.Laws.{same_place, find_field_at-put_field_at}
use exio.Table.Row.{row_key}
use exio.Table.Row.Update.{Keyed}
use exio.Table.Messages.{
  body, row_0, qn_msgtype, qn_tablename, put_container, put, init_msg, add_update, add_updates,
  row_multi_update_msg, empty_message,
}

-- A field of the row in the message
abbrev pub row_field : Bytes → TxMessage → Option Bytes
row_field f m = find_field_at (body ∷ row_0 ∷ f ∷ []) m.items

row_field-add_update :
    (f g v : Bytes) (m : TxMessage)
    → row_field f (add_update g v m) ≡ (if str_eq g f then some v else row_field f m)
unfolding add_update same_place
row_field-add_update f g v m =
    find_field_at-put_field_at (body ∷ row_0 ∷ g ∷ []) (body ∷ row_0 ∷ f ∷ []) v m.items

row_field-add_updates :
    (f : Bytes) (ups : Dict Bytes) (m : TxMessage)
    → Keyed ups
    → row_field f (add_updates ups m) ≡ or_else (lookup f ups) (row_field f m)
unfolding add_updates lookup
row_field-add_updates f [] m k = refl
row_field-add_updates f ((g, v) ∷ ups) m k =
    row_field-add_updates f ups (add_update g v m) k.1
    ∙ ground (arith, row_field-add_update f g v m, str_eq_iff g f, k.0)

-- The message before the key of the row is put
unfoldable keyless : Bytes → TxMessage
keyless t =
    let typed = set_type (codes "tableupdate") empty_message in
    let headed = put qn_msgtype (codes "tableupdate") (put qn_tablename t typed) in
    let counted = put (body ∷ codes "rows" ∷ []) (codes "1") (put_container (body ∷ []) headed) in
    put_container (body ∷ row_0 ∷ []) counted

keyless_row : (t f : Bytes) → row_field f (keyless t) ≡ none
unfolding keyless find_field_at find_tree put_field_at put_child_at at_tree put_child put_field
    set_child child_items find_child find_field add_child add_field add_items set_field set_type
keyless_row t f = refl

row_field-init_msg :
    (t k f : Bytes)
    → row_field f (init_msg t k empty_message) ≡ (if str_eq row_key f then some k else none)
unfolding init_msg same_place keyless
row_field-init_msg t k f =
    find_field_at-put_field_at (body ∷ row_0 ∷ row_key ∷ []) (body ∷ row_0 ∷ f ∷ []) k
      (keyless t).items
    ∙ ap (λ o. if str_eq row_key f then some k else o) (keyless_row t f)

-- In the message of a row's update with fields of distinct names, the row has under each name
-- the value that the update gives, and else, under RowKey, the key of the row, and no other
-- field.
pub row_field-row_multi_update_msg :
    (t k f : Bytes) (ups : Dict Bytes)
    → Keyed ups
    → row_field f (row_multi_update_msg t k ups empty_message)
      ≡ or_else (lookup f ups) (if str_eq row_key f then some k else none)
unfolding row_multi_update_msg
row_field-row_multi_update_msg t k f ups d =
    row_field-add_updates f ups (init_msg t k empty_message) d
    ∙ ap (or_else (lookup f ups)) (row_field-init_msg t k f)
