-- ===== src/Packet/Cases.antt =====
-- What `Packet::deserialize` does on each of its branches.
use libuv_net.Base.{ℕ, ◌+◌, ◌≤◌, ◌<◌, ◌≡◌, ◌≢◌, ◌⊎◌, true, false, List, take, drop, arith}
use libuv_net.Packet.{Packet, protocol_version, deserialize}
use libuv_net.Packet.Header.{Abi, header_size, read_header}

-- A whole header of the right version, and all the bytes that it announces.
pub record Accepts (abi : Abi) (mem : List ℕ) (size : ℕ) : Type 0 where
  pub long : header_size ≤ size
  pub version : (read_header abi mem).version ≡ protocol_version
  pub whole : header_size + (read_header abi mem).length ≤ size

-- The packet whose image begins at `mem`.
abbrev pub packet_at : Abi → List ℕ → Packet
packet_at abi mem =
    let header = read_header abi mem in
    record {
      type = header.type;
      payload = take header.length (drop header_size mem);
      sequence = header.sequence;
    }

module _ (abi : Abi) (q : Packet) (mem : List ℕ) (size : ℕ) where
  pub deserialize-of_Accepts :
      Accepts abi mem size → deserialize abi q mem size ≡ (packet_at abi mem, true)
  unfolding deserialize
  deserialize-of_Accepts a = ground arith

  pub deserialize-inv :
      (p : Packet)
      → deserialize abi q mem size ≡ (p, true)
      → Accepts abi mem size × (p ≡ packet_at abi mem)
  unfolding deserialize
  deserialize-inv p h = ground arith

  -- A failure leaves the payload of the object alone and has one of three reasons: less than a header,
  -- another version, and then the whole object is as before; or less than the header announces, and
  -- then the type and the sequence number are already those of the header.
  pub deserialize-inv_fail :
      (p : Packet)
      → deserialize abi q mem size ≡ (p, false)
      → (p.payload ≡ q.payload)
        × (((size < header_size) × (p ≡ q))
            ⊎ (((read_header abi mem).version ≢ protocol_version) × (p ≡ q))
            ⊎ ((size < header_size + (read_header abi mem).length)
                × (p.type ≡ (read_header abi mem).type)
                × (p.sequence ≡ (read_header abi mem).sequence)))
  unfolding deserialize
  deserialize-inv_fail p h = ground arith

  pub deserialize-of_version :
      (read_header abi mem).version ≢ protocol_version → deserialize abi q mem size ≡ (q, false)
  unfolding deserialize
  deserialize-of_version v = ground arith
