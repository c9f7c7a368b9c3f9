-- ===== src/Config/Printing.antt =====
-- `Config::toString` of core/src/config.cpp.
use nipovpn.Base.{Bool, true, false, List, [], ◌∷◌, ◌++◌, Bytes, codes}
use nipovpn.Text.Numbers.{to_string}
use nipovpn.Config.{Config}

-- `std::boolalpha`.
abbrev pub bool_text : Bool → Bytes
bool_text true = codes "true"
bool_text false = codes "false"

-- The values of a list, with `, ` between them.
unfoldable pub comma_separated : List Bytes → Bytes
comma_separated [] = []
comma_separated (s ∷ []) = s
comma_separated (s ∷ t ∷ ts) = s ++ (codes ", " ++ comma_separated (t ∷ ts))

abbrev pub concat : List Bytes → Bytes
concat [] = []
concat (s ∷ ss) = s ++ concat ss

-- toString
unfoldable pub config_text : Config → Bytes
unfolding comma_separated
config_text c = concat (
    codes "\nConfig :\n"
    ∷ codes " General :\n"
    ∷ codes "   token: "
    ∷ c.general.token
    ∷ codes "\n"
    ∷ codes "   protocol: "
    ∷ c.general.protocol
    ∷ codes "\n"
    ∷ codes "   bufferSize: "
    ∷ to_string c.general.buffer_size
    ∷ codes "\n"
    ∷ codes "   fakeUrls: "
    ∷ comma_separated c.general.fake_urls
    ∷ codes "\n"
    ∷ codes "   methods: "
    ∷ comma_separated c.general.methods
    ∷ codes "\n"
    ∷ codes "   endPoints: "
    ∷ comma_separated c.general.end_points
    ∷ codes "\n"
    ∷ codes "   timeout: "
    ∷ to_string c.general.timeout
    ∷ codes "\n"
    ∷ codes "   pullTimeout: "
    ∷ to_string c.general.pull_timeout
    ∷ codes "\n"
    ∷ codes "   tunnelEnable: "
    ∷ bool_text c.general.tunnel_enable
    ∷ codes "\n"
    ∷ codes "   connectionReuse: "
    ∷ bool_text c.general.connection_reuse
    ∷ codes "\n"
    ∷ codes "   tlsEnable: "
    ∷ bool_text c.general.tls_enable
    ∷ codes "\n"
    ∷ codes "   tlsVerifyPeer: "
    ∷ bool_text c.general.tls_verify_peer
    ∷ codes "\n"
    ∷ codes "   tlsCertFile: "
    ∷ c.general.tls_cert_file
    ∷ codes "\n"
    ∷ codes "   tlsKeyFile: "
    ∷ c.general.tls_key_file
    ∷ codes "\n"
    ∷ codes "   tlsCaFile: "
    ∷ c.general.tls_ca_file
    ∷ codes "\n"
    ∷ codes " Log :\n"
    ∷ codes "   logLevel: "
    ∷ c.log.level
    ∷ codes "\n"
    ∷ codes "   logFile: "
    ∷ c.log.file
    ∷ codes "\n"
    ∷ codes " Server :\n"
    ∷ codes "   threads: "
    ∷ to_string c.server.threads
    ∷ codes "\n"
    ∷ codes "   listenIp: "
    ∷ c.server.listen_ip
    ∷ codes "\n"
    ∷ codes "   listenPort: "
    ∷ to_string c.server.listen_port
    ∷ codes "\n"
    ∷ codes " Agent :\n"
    ∷ codes "   threads: "
    ∷ to_string c.agent.threads
    ∷ codes "\n"
    ∷ codes "   listenIp: "
    ∷ c.agent.listen_ip
    ∷ codes "\n"
    ∷ codes "   listenPort: "
    ∷ to_string c.agent.listen_port
    ∷ codes "\n"
    ∷ codes "   serverIp: "
    ∷ c.agent.server_ip
    ∷ codes "\n"
    ∷ codes "   serverPort: "
    ∷ to_string c.agent.server_port
    ∷ codes "\n"
    ∷ codes "   httpVersion: "
    ∷ c.agent.http_version
    ∷ codes "\n"
    ∷ codes "   userAgent: "
    ∷ c.agent.user_agent
    ∷ codes "\n"
    ∷ [])
