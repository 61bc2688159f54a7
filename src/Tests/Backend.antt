-- ===== src/Tests/Backend.antt =====
-- A database that a test can run: a function from buckets and keys, with two heights.
use pixie_block.Base.{
  String, true, List, [], ◌∷◌, ◌++◌, Option, none, some, ◌&&◌, ◌==◌, if◌then◌else◌, bytes_eq, ◌≡◌,
  refl, subst, arith, eq_refl,
}
use pixie_block.Base.Int.{ℤ, pos, eqb_ℤ}
use pixie_block.Domain.{Bytes}
use pixie_block.Storage.{Backend, persist}
use pixie_block.Storage.RoundTrips.{StoresState}
use pixie_block.Tests.Samples.{genesis_block, next_block, ledger}

abbrev pub Files : Type 0
Files = String → String → Option Bytes

abbrev write : String → String → Bytes → Files → Files
write bucket key v db bucket' key' =
    if bucket == bucket' && key == key' then some v else db bucket' key'

abbrev entry : String → Option Bytes → List (String × Bytes)
entry key none = []
entry key (some v) = (key, v) ∷ []

abbrev key_of : ℤ → String
key_of h = if eqb_ℤ h (pos 0) then "0" else "1"

-- The keys come in the wrong order, and a block is encoded by its height.
abbrev pub files : Backend Files
files = record {
  put = λ bucket key v db. some (write bucket key v db);
  get = λ bucket key db. db bucket key;
  for_each = λ bucket db. entry "1" (db bucket "1") ++ entry "0" (db bucket "0");
  commits = λ db. true;
  marshal_block = λ b. some (if eqb_ℤ b.height (pos 0) then 0 ∷ [] else 1 ∷ []);
  unmarshal_block = λ v. some (if bytes_eq v (0 ∷ []) then genesis_block else next_block);
  marshal_payload = λ payload. some (2 ∷ []);
  unmarshal_payload = λ v. some (persist ledger);
  format_height = key_of;
}

abbrev pub no_files : Files
no_files bucket key = none

-- A store with the genesis block and the next one.
abbrev pub two_files : Files
two_files = write "blocks" "0" (0 ∷ []) (write "blocks" "1" (1 ∷ []) no_files)

write_read :
    (bucket key : String) (v : Bytes) (db : Files) → write bucket key v db bucket key ≡ some v
write_read bucket key v db = ground (arith, eq_refl bucket, eq_refl key)

pub files-StoresState : StoresState files ledger
files-StoresState = record {
  stored = λ bucket key v db written h.
      let same : write bucket key v db ≡ written = cc in
      subst (λ w. w bucket key ≡ some v) same (write_read bucket key v db);
  decoded = λ v h. refl;
}
