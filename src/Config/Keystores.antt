-- ===== src/Config/Keystores.antt =====
-- config/config.go: the keystore as a map from accounts to private keys.
use pixie_block.Base.{
  String, List, [], ◌∷◌, ◌++◌, none, some, ◌≡◌, arith, ◌==◌, not, if◌then◌else◌, eq_iff, filter_by,
}
use pixie_block.Config.{
  KeystoreEntry, Keystore, append_entry, remove_entry, private_key_for, find_private_key,
}

find-append :
    (id : String) (e : KeystoreEntry) (es : List KeystoreEntry)
    → find_private_key id (es ++ e ∷ []) ≡ elim (find_private_key id es) [
      | none ↦ if e.account_id == id then some e.private_key else none
      | some key ↦ some key
    ]
find-append id e [] = ground arith
find-append id e (f ∷ es) = ground (arith, find-append id e es)

find-remove :
    (j id : String) (es : List KeystoreEntry)
    → find_private_key j (filter_by (λ e. not (e.account_id == id)) es)
      ≡ (if id == j then none else find_private_key j es)
find-remove j id [] = ground arith
find-remove j id (e ∷ es) =
    ground (arith, find-remove j id es, eq_iff e.account_id id, eq_iff e.account_id j, eq_iff id j)

-- For every keystore and entry: after RemoveEntry of the entry's account and AppendEntry,
-- PrivateKeyFor yields the entry's key for that account and what it yielded before for every other.
pub private_key_for-replace :
    (j : String) (e : KeystoreEntry) (k : Keystore)
    → private_key_for j (append_entry e (remove_entry e.account_id k))
      ≡ (if e.account_id == j then some e.private_key else private_key_for j k)
unfolding private_key_for append_entry remove_entry
private_key_for-replace j e k = ground (
  arith,
  find-append j e (filter_by (λ f. not (f.account_id == e.account_id)) k.entries),
  find-remove j e.account_id k.entries,
)
