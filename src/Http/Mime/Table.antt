-- ===== src/Http/Mime/Table.antt =====
-- The table of MimeType::MimeType (src/http_utility.cpp), in the order of its assignments.
mod First
mod Second
mod Third
use boost_web.Http.Mime.Table.First.{first_types}
use boost_web.Http.Mime.Table.Second.{second_types}
use boost_web.Http.Mime.Table.Third.{third_types}
use boost_web.Common.{String, List, ◌++◌}

unfoldable pub mime_types : List (String × String)
unfolding first_types second_types third_types
mime_types = first_types ++ second_types ++ third_types
