-- ===== src/Peer/Ice.antt =====
-- The TURN servers of WRTCPeer::createPeerConnection in src/wrtc_peer.cpp, and the lines that it logs of
-- them, in which the secret is replaced.
use phntm_bridge.Prelude.{
  Bool, true, false, Option, none, some, List, [], ◌∷◌, ◌++◌, Str, codes, if◌then◌else◌,
}
use phntm_bridge.Text.{strip_prefix, replace}

abbrev pub stars : Str
stars = codes "*******"

abbrev pub turn_url : Str → Str → Str → Str
turn_url username secret address =
    codes "turn://" ++ (username ++ (codes ":" ++ (secret ++ (codes "@" ++ address))))

-- YELLOW and CLR.
abbrev yellow : Str
yellow = 27 ∷ codes "[33m"

abbrev clr : Str
clr = 27 ∷ codes "[0m"

-- WRTCPeer::toString of a peer with this id.
abbrev peer_to_string : Str → Str
peer_to_string id = codes "[RTC Peer #" ++ (id ++ codes "] ")

-- The line that is logged, with what it shows of the URL.
abbrev pub turn_line : Str → Str → Str
turn_line id shown =
    yellow ++ (peer_to_string id ++ (codes "Config adding ICE: " ++ (shown ++ clr)))

-- The loop over ice_servers: the URLs of the servers, each with the line that is logged of it, and
-- whether it ended in an exception. Only the servers of turn: are taken. `accepts` is whether
-- rtc::IceServer takes a URL, for which it throws otherwise. `none`: `replace` does not end.
unfoldable pub turn_servers :
    (Str → Bool) → Str → Str → Str → List Str → Option (List (Str × Str) × Bool)
unfolding strip_prefix replace
turn_servers accepts id username secret [] = some ([], false)
turn_servers accepts id username secret (one ∷ ones) =
    let rest = turn_servers accepts id username secret ones in
    elim (strip_prefix (codes "turn:") one) [
      | none ↦ rest
      | some address ↦
          let url = turn_url username secret address in
          elim (replace url secret stars) [
            | none ↦ none
            | some shown ↦
                if accepts url
                then elim rest [
                  | none ↦ none
                  | some (us, threw) ↦ some ((url, turn_line id shown) ∷ us, threw)
                ]
                else some ([], true)
          ]
    ]
