-- ===== src/Crypt/Plain.antt =====
-- A block cipher for the tests, which copies its block.
use atof.Prelude.{refl}
use atof.Crypt.Cipher.{Aes}

abbrev pub copying : Aes
copying = record {
  encrypt_block = λ key block. block;
  decrypt_block = λ key block. block;
  encrypt-IsBlock = λ key block h. h;
  decrypt-encrypt = λ key block h. refl;
}
