-- ===== src/Tests/Names.antt =====
-- The claims about the server name, at the host of the visit.
use aegiuw.Sni.Wire.{server_name_list}
use aegiuw.Sni.ServerName.Valid.{IsHostName, parse_server_name_extension-IsHostName}
use aegiuw.Tests.{server_name-github, github}

parse_server_name_extension-IsHostName_example : IsHostName github
parse_server_name_extension-IsHostName_example =
    parse_server_name_extension-IsHostName (server_name_list github) server_name-github
