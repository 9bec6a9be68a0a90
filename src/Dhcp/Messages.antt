-- ===== src/Dhcp/Messages.antt =====
-- DHCP messages survive their encoding, and the answers of the server survive their frame.
use network_simulation.Common.{ℕ, ◌^◌, ◌<◌, ◌≡◌, List, ok, join32-be32, arith, refl}
use network_simulation.L4.{Udp}
use network_simulation.L3.{Ip, encap_udp}
use network_simulation.L3.Codec.{FitsUdp}
use network_simulation.Pdu.{Mpdu, open_udp, new_mpdu, set_source_mac, set_destination_mac, encap_ip}
use network_simulation.Pdu.Frames.{IsHeader, open_udp-encap_ip}
use network_simulation.Dhcp.{
  Dhcp, DhcpEntry, DhcpServer, generate_dhcp, dhcp_bytes, answer, bootp_server_port,
  bootp_client_port,
}

pub record FitsDhcp (m : Dhcp) : Type 0 where
  pub client_ip : m.client_ip < 2 ^ 32
  pub your_ip : m.your_ip < 2 ^ 32

-- A message whose addresses fit 32 bits is read back as it was written.
pub generate_dhcp-dhcp_bytes : (m : Dhcp) → FitsDhcp m → generate_dhcp (dhcp_bytes m) ≡ ok m
unfolding generate_dhcp dhcp_bytes
generate_dhcp-dhcp_bytes m w =
    rw (join32-be32 m.client_ip w.client_ip, join32-be32 m.your_ip w.your_ip)

-- What a client finds in a frame from the server.
pub record Carries (from : List ℕ) (to : List ℕ) (p : Ip) (m : Dhcp) (f : Mpdu) : Type 0 where
  pub source_mac : f.source_mac ≡ from
  pub destination_mac : f.destination_mac ≡ to
  pub packet : Ip
  pub segment : Udp
  pub opens : open_udp f ≡ ok (packet, segment)
  pub source_ip : packet.source_ip ≡ p.source_ip
  pub destination_ip : packet.destination_ip ≡ p.destination_ip
  pub source_port : segment.source_port ≡ bootp_server_port
  pub destination_port : segment.destination_port ≡ bootp_client_port
  pub message : generate_dhcp segment.payload ≡ ok m

pub answer-Carries :
    (server : DhcpServer) (entry : DhcpEntry) (p : Ip) (s : Udp) (m : Dhcp) (mac : List ℕ)
    → entry.mac ≡ mac
    → IsHeader p
    → FitsUdp s
    → FitsDhcp m
    → Carries server.gw_mac mac p m (answer server entry p s m)
unfolding answer new_mpdu set_source_mac set_destination_mac encap_ip encap_udp
answer-Carries server entry p s m mac e h fits w =
    let s' : Udp = record s {
      source_port = bootp_server_port;
      destination_port = bootp_client_port;
      payload = dhcp_bytes m;
    } in
    record {
      source_mac = refl;
      destination_mac = e;
      packet = encap_udp s' p;
      segment = s';
      opens =
          open_udp-encap_ip s' p
            (set_destination_mac entry.mac (set_source_mac server.gw_mac (new_mpdu 0)))
            (record {
              source_port = omega arith;
              destination_port = omega arith;
              udp_length = fits.udp_length;
              checksum = fits.checksum;
            })
            h (unfold dhcp_bytes in omega arith);
      source_ip = refl;
      destination_ip = refl;
      source_port = refl;
      destination_port = refl;
      message = generate_dhcp-dhcp_bytes m w;
    }

-- A frame that carries a DHCP message of a client, in fields that fit.
pub record IsQuery (f : Mpdu) (p : Ip) (s : Udp) (m : Dhcp) : Type 0 where
  pub opens : open_udp f ≡ ok (p, s)
  pub header : IsHeader p
  pub segment : FitsUdp s
  pub message : generate_dhcp s.payload ≡ ok m
  pub fits : FitsDhcp m
