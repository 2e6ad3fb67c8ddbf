-- ===== src/Shm/Handshake.antt =====
-- The version handshake of check_protocol_version.
use jack_router.Common.{◌≡◌, ◌≢◌, ◌⊎◌, arith, true, false}
use jack_router.Shm.{Shm, check_protocol_version, protocol_version}

-- A side is accepted when the region is fresh or holds its version; then the region holds the
-- version, and whichever side checks next is accepted and changes nothing. Otherwise it is refused,
-- and leaves the region as it was, so the next check is refused too.
pub handshake :
    (m : Shm)
    → let (accepted, m') = check_protocol_version m in
      ((accepted ≡ true)
        × ((m.version ≡ 0) ⊎ (m.version ≡ protocol_version))
        × (m'.version ≡ protocol_version)
        × (check_protocol_version m' ≡ (true, m')))
      ⊎ ((accepted ≡ false)
          × (m.version ≢ 0)
          × (m.version ≢ protocol_version)
          × (m' ≡ m)
          × (check_protocol_version m' ≡ (false, m)))
unfolding check_protocol_version
handshake m = ground arith
