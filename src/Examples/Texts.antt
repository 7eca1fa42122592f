-- ===== src/Examples/Texts.antt =====
-- The texts of addresses, on concrete values.
use transocks_wong.Prelude.{◌≡◌, refl, some, arith}
use transocks_wong.Util.Texts.{codes, transocks_inet_addrportstrlen, generate_sockaddr_port_str}
use transocks_wong.Util.Ports.{ReadsBack, generate_sockaddr_port_str-whole}
use transocks_wong.Examples.World.{ntop, ntop-laws, destination}

its_text :
    generate_sockaddr_port_str ntop transocks_inet_addrportstrlen destination 16
    ≡ some (codes "93.184.216.34:80")
unfolding generate_sockaddr_port_str transocks_wong.Util.Texts.decimal
    transocks_wong.Util.Texts.digits
its_text = refl

generate_sockaddr_port_str-whole_example :
    ReadsBack destination
      (generate_sockaddr_port_str ntop transocks_inet_addrportstrlen destination 16)
generate_sockaddr_port_str-whole_example =
    generate_sockaddr_port_str-whole ntop ntop-laws destination 16 refl (omega arith)
