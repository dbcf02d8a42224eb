-- ===== src/Examples/Addresses.antt =====
-- A URL of a broker.
use de_be_os_rdp.Prelude.{◌≡◌, refl, ◌∷◌, ◌++◌, ok, arith, to_string, codes}
use de_be_os_rdp.KnownBrokers.{lowered}
use de_be_os_rdp.Transport.{parse_url}
use de_be_os_rdp.Transport.Url.{parse_url-parts}

parse_url-parts_example :
    parse_url (
      codes "WSS" ++ 58 ∷ 47 ∷ 47 ∷ ((codes "haiku" ++ 58 ∷ to_string 8443) ++ 47 ∷ codes "desk?a"))
    ≡ ok (record {
      scheme = lowered (codes "WSS");
      host = codes "haiku";
      port = 8443;
      target = 47 ∷ codes "desk?a";
    })
parse_url-parts_example =
    parse_url-parts (codes "WSS") 104 (codes "aiku") 8443 (codes "desk?a")
      (refl, (refl, (refl, tt))) (refl, (refl, (refl, (refl, (refl, tt))))) refl (omega arith)
      (omega arith)
