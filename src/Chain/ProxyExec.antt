-- ===== src/Chain/ProxyExec.antt =====
-- cpp/src/pmm/chain/proxy_exec.cpp: the calldata of the proxy factory's proxy(ProxyCall[]).
pub mod Decode
use polymarket_live_maker.Prelude.{
  Bytes, List, [], be_from, be_value, codes, concat, if◌then◌else◌, length, map, refl, replicate,
  take, ℕ, ◌%◌, ◌*◌, ◌++◌, ◌+◌, ◌-◌, ◌==◌, ◌^◌, ◌∷◌, ◌≡◌,
}
use polymarket_live_maker.Crypto.Keccak.{keccak256}
use polymarket_live_maker.Crypto.Words.{u256_from_u64, zero32}
use polymarket_live_maker.Chain.Ctf.{addr32}

abbrev pub proxy_wallet_factory : Bytes
proxy_wallet_factory = codes "0xaB45c5A4B0c941a2F231C04C3f49182e1A254052"

pub data CallType : Type 0 where
  invalid call delegate_call : CallType

unfoldable pub call_code : CallType → ℕ
call_code CallType.invalid = 0
call_code CallType.call = 1
call_code CallType.delegate_call = 2

pub record ProxyCall : Type 0 where
  pub type_code : CallType
  pub to : Bytes
  pub value : Bytes
  pub call_data : Bytes

unfoldable pub proxy_selector : Bytes
proxy_selector = take 4 (keccak256 (codes "proxy((uint8,address,uint256,bytes)[])"))

-- `if (rem != 0) e.insert(e.end(), 32 - rem, 0)`.
unfoldable pub padding : ℕ → Bytes
padding size = if size % 32 == 0 then [] else replicate (32 - size % 32) 0

-- One tuple: the head of four slots, then the bytes with their length.
unfoldable pub encode_call : ProxyCall → Bytes
unfolding call_code padding
encode_call c =
    u256_from_u64 (call_code c.type_code)
    ++ (addr32 c.to
        ++ (c.value
            ++ (u256_from_u64 0x80
                ++ (u256_from_u64 (length c.call_data)
                    ++ (c.call_data ++ padding (length c.call_data))))))

-- The loop that writes `offset` for each element and adds its size, in `uint64_t`.
unfoldable pub offsets : List Bytes → ℕ → Bytes
offsets [] offset = []
offsets (e ∷ elems) offset = u256_from_u64 offset ++ offsets elems ((offset + length e) % 2 ^ 64)

unfoldable pub encode_proxy : List ProxyCall → Bytes
unfolding encode_call offsets
encode_proxy calls =
    let elems = map encode_call calls in
    proxy_selector
    ++ (u256_from_u64 0x20
        ++ (u256_from_u64 (length calls)
            ++ (offsets elems (length calls * 32 % 2 ^ 64) ++ concat elems)))

unfoldable pub encode_proxy_exec : Bytes → Bytes → Bytes
unfolding encode_proxy
encode_proxy_exec to inner =
    encode_proxy
      (record { type_code = CallType.call; to = to; value = zero32; call_data = inner } ∷ [])

-- The selector that proxy_exec.hpp names.
proxy_selector_value : be_value proxy_selector ≡ 0x34ee9791
unfolding proxy_selector keccak256 be_from
proxy_selector_value = refl
