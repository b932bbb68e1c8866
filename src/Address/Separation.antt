-- ===== src/Address/Separation.antt =====
-- The address of a thread and the address of a scope on one secret.
use aamio_rust.Base.{◌≡◌, ◌≢◌, true, ◌++◌, arith, take, ok, Bytes, codes, all}
use aamio_rust.Base.Ascii.{is_ascii_lowercase, is_ascii_digit}
use aamio_rust.Extern.Encodings.{Encodings}
use aamio_rust.Extern.Hashing.{Hashing}
use aamio_rust.Codec.{base32, sha256}
use aamio_rust.Address.{is_id_byte, is_id, w, scope_address}

-- What a scope address is taken over holds a dash and a line break, which no read key holds.
is_id-ne-scope_text :
    (id scope_key : Bytes) → is_id id ≡ true → id ≢ codes "aamio-scope-v1\n" ++ scope_key
unfolding is_id all is_id_byte is_ascii_lowercase is_ascii_digit codes
is_id-ne-scope_text id scope_key h e =
    let shape : is_id (codes "aamio-scope-v1\n" ++ scope_key) ≡ true = rw e at h in ground arith

module _ ⦃e : Encodings⦄ ⦃h : Hashing⦄ where
  -- If a read key and a scope key have the same address, the two texts that were hashed for
  -- it differ and agree in the first 20 base32 characters of their sha256.
  pub w-scope_address :
      (id scope_key address : Bytes)
      → w id ≡ ok address
      → scope_address scope_key ≡ ok address
      → (id ≢ codes "aamio-scope-v1\n" ++ scope_key)
        × (take 20 (base32 (sha256 id))
            ≡ take 20 (base32 (sha256 (codes "aamio-scope-v1\n" ++ scope_key))))
  unfolding w scope_address
  w-scope_address id scope_key address p q =
      (is_id-ne-scope_text id scope_key (ground arith), ground arith)
