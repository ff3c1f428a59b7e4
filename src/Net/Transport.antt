-- ===== src/Net/Transport.antt =====
-- libs/net/src/transport.cpp: the names of the paths of libs/net/include/openmesh/net/endpoint.hpp.
use openmesh_messenger.Base.{Bytes, codes}

pub data ConnectPath : Type 0 where
  direct : ConnectPath
  nat_traversal : ConnectPath
  relay : ConnectPath

unfoldable pub connect_path_name : ConnectPath → Bytes
connect_path_name direct = codes "direct"
connect_path_name nat_traversal = codes "nat-traversal"
connect_path_name relay = codes "relay"
