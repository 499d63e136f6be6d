-- ===== src/Core/Name.antt =====
-- `pad_name` and `unpad_name` of crates/zbacs-core/src/container.rs. A file name is its UTF-8 bytes.
use z_bacs.Prelude.{
  ℕ, ◌+◌, ◌-◌, ◌*◌, ◌/◌, ◌%◌, ◌^◌, not, ◌||◌, ◌++◌, Result, ok, ◌>>◌, refuse_if, ltb, ◌==◌, length,
  take, drop, replicate, any, max,
}
use z_bacs.Prelude.Bytes.{Bytes, to_le_bytes, from_le_bytes}
use z_bacs.Core.External.{Suite}
use z_bacs.Core.Header.{Error, header_encode, name_auth}

abbrev pub tag_len : ℕ
tag_len = 16

abbrev pub name_pad_block : ℕ
name_pad_block = 64

abbrev pub max_name_len : ℕ
max_name_len = 1024

abbrev pub max_name_ct_len : ℕ
max_name_ct_len = 1088 + tag_len

-- `(2 + len).div_ceil(NAME_PAD_BLOCK) * NAME_PAD_BLOCK`, at least one block.
abbrev pub padded_len : ℕ → ℕ
padded_len n = max ((2 + n + 63) / 64 * 64) name_pad_block

-- The length prefix, the name, and zeros up to the padded length.
unfoldable pub pad_name : Bytes → Result Error Bytes
pad_name name = do
  refuse_if (ltb max_name_len (length name)) (header_encode "file name too long")
  let zeros = replicate (padded_len (length name) - (2 + length name)) 0
  ok (to_le_bytes 2 (length name % 2 ^ 16) ++ (name ++ zeros))

unfoldable pub unpad_name : Suite → Bytes → Result Error Bytes
unpad_name c buf = do
  refuse_if
      (ltb (length buf) name_pad_block
        || not (length buf % name_pad_block == 0)
        || ltb (max_name_ct_len - tag_len) (length buf))
      name_auth
  let len = from_le_bytes (take 2 buf)
  refuse_if (ltb max_name_len len || ltb (length buf) (2 + len)) name_auth
  refuse_if (any (λ b. not (b == 0)) (drop (2 + len) buf)) name_auth
  refuse_if (not (c.is_utf8 (take len (drop 2 buf)))) name_auth
  ok (take len (drop 2 buf))
