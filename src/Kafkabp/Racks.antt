-- ===== src/Kafkabp/Racks.antt =====
-- What a rack id that is a URL comes to (kafkabp/rack.go).
use baseplate_go.Common.{◌≡◌, refl, [], ◌++◌, Bytes, codes, bytes_eq}
use baseplate_go.Kafkabp.{Network, cut_prefix, unmarshal_text, is_token, simple_http, rack_id}

-- Whatever any server answers, a rack id that is configured as a URL, of either scheme, comes out empty: the URL
-- is passed as the method of the request, which is refused.
pub url_rack_id :
    (network : Network) (s : Bytes)
    → (rack_id network (unmarshal_text (codes "http://" ++ s)) ≡ [])
      × (rack_id network (unmarshal_text (codes "https://" ++ s)) ≡ [])
unfolding rack_id simple_http unmarshal_text cut_prefix is_token bytes_eq
url_rack_id network s = (refl, refl)
