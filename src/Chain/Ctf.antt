-- ===== src/Chain/Ctf.antt =====
-- cpp/src/pmm/chain/ctf.cpp: the calldata of mergePositions. `Addr32` there is AddrTo32 of
-- eip712_v2.cpp, and a 32-byte array is a list of that length.
pub mod Decode
use polymarket_live_maker.Prelude.{
  Bytes, List, [], be_from, be_value, codes, concat, length, refl, replicate, take, ℕ, ◌*◌, ◌++◌,
  ◌∷◌, ◌≡◌,
}
use polymarket_live_maker.Crypto.Keccak.{keccak256}
use polymarket_live_maker.Crypto.Words.{u256_from_u64, zero32}

abbrev pub ctf_address : Bytes
ctf_address = codes "0x4D97DCd97eC945f40cF65F87097ACe5EA0476045"

abbrev pub polygon_chain_id : ℕ
polygon_chain_id = 137

unfoldable pub addr32 : Bytes → Bytes
addr32 a = replicate 12 0 ++ a

unfoldable pub merge_selector : Bytes
merge_selector =
    take 4 (keccak256 (codes "mergePositions(address,bytes32,bytes32,uint256[],uint256)"))

-- The head of five slots, then the length of the partition and its elements.
unfoldable pub encode_merge_positions : Bytes → Bytes → Bytes → List Bytes → Bytes → Bytes
unfolding merge_selector
encode_merge_positions collateral parent_collection_id condition_id partition amount =
    merge_selector
    ++ (addr32 collateral
        ++ (parent_collection_id
            ++ (condition_id
                ++ (u256_from_u64 (5 * 32)
                    ++ (amount ++ (u256_from_u64 (length partition) ++ concat partition))))))

unfoldable pub encode_merge_positions_binary : Bytes → Bytes → ℕ → Bytes
encode_merge_positions_binary collateral condition_id amount =
    encode_merge_positions collateral zero32 condition_id (u256_from_u64 1 ∷ u256_from_u64 2 ∷ [])
      (u256_from_u64 amount)

-- The selector that ctf.hpp names.
merge_selector_value : be_value merge_selector ≡ 0x9e7212ad
unfolding merge_selector keccak256 be_from
merge_selector_value = refl
