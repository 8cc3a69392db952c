-- ===== src/Md5/Tests.antt =====
-- The sums of two short messages.
use libhy_utils_bak.Base.{
  ℕ, ◌+◌, ◌/◌, ◌≡◌, refl, true, some, [], ◌∷◌, replicate, memcpy, Bytes, arith,
}
use libhy_utils_bak.Md5.{Words, padded, chunk_loop, initial, hy_md5sum}
use libhy_utils_bak.Md5.Block.{block_of}
use libhy_utils_bak.Md5.Digest.{digest_of}
use libhy_utils_bak.Md5.Total.{hy_md5sum_returns}

-- the published sums of the empty message and of `abc`
empty_sum :
    hy_md5sum true [] 0 (replicate 16 0)
    ≡ some (
        0xd4 ∷ 0x1d ∷ 0x8c ∷ 0xd9 ∷ 0x8f ∷ 0x00 ∷ 0xb2 ∷ 0x04 ∷ 0xe9 ∷ 0x80 ∷ 0x09 ∷ 0x98 ∷ 0xec
        ∷ 0xf8 ∷ 0x42 ∷ 0x7e ∷ [])
unfolding hy_md5sum memcpy
empty_sum = refl

abc_sum :
    hy_md5sum true (97 ∷ 98 ∷ 99 ∷ []) 3 (replicate 16 0)
    ≡ some (
        0x90 ∷ 0x01 ∷ 0x50 ∷ 0x98 ∷ 0x3c ∷ 0xd2 ∷ 0x4f ∷ 0xb0 ∷ 0xd6 ∷ 0x96 ∷ 0x3f ∷ 0x7d ∷ 0x28
        ∷ 0xe1 ∷ 0x7f ∷ 0x72 ∷ [])
unfolding hy_md5sum memcpy
abc_sum = refl

hy_md5sum_returns_example :
    (new_len : ℕ) × (block : Bytes) × (h : Words) × (new_len ≡ 56)
    × (block ≡ block_of (97 ∷ 98 ∷ 99 ∷ []) 52)
    × (padded (97 ∷ 98 ∷ 99 ∷ []) 3 new_len ≡ some block)
    × (chunk_loop (new_len / 64 + 2) 0 new_len block initial ≡ some h)
    × (hy_md5sum true (97 ∷ 98 ∷ 99 ∷ []) 3 (replicate 16 0) ≡ some (digest_of h))
hy_md5sum_returns_example =
    hy_md5sum_returns (97 ∷ 98 ∷ 99 ∷ []) (replicate 16 0) (omega arith) refl
