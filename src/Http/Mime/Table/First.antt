-- ===== src/Http/Mime/Table/First.antt =====
-- A third of the table of MimeType::MimeType (src/http_utility.cpp).
use boost_web.Common.{String, List, [], ◌∷◌}

-- MimeType::MimeType, from "." to ".js"
unfoldable pub first_types : List (String × String)
first_types =
    (".", "application/x-")
    ∷ (".001", "application/x-001")
    ∷ (".301", "application/x-301")
    ∷ (".323", "text/h323")
    ∷ (".3gp", "video/3gpp")
    ∷ (".906", "application/x-906")
    ∷ (".907", "drawing/907")
    ∷ (".ivf", "video/x-ivf")
    ∷ (".a11", "application/x-a11")
    ∷ (".acp", "audio/x-mei-aac")
    ∷ (".ai", "application/postscript")
    ∷ (".aif", "audio/aiff")
    ∷ (".aifc", "audio/aiff")
    ∷ (".aiff", "audio/aiff")
    ∷ (".anv", "application/x-anv")
    ∷ (".asa", "text/asa")
    ∷ (".asf", "video/x-ms-asf")
    ∷ (".asp", "text/asp")
    ∷ (".asx", "video/x-ms-asf")
    ∷ (".au", "audio/basic")
    ∷ (".avi", "video/x-msvideo")
    ∷ (".awf", "application/vnd.adobe.workflow")
    ∷ (".biz", "text/xml")
    ∷ (".bmp", "application/x-MS-bmp")
    ∷ (".bot", "application/x-bot")
    ∷ (".c4t", "application/x-c4t")
    ∷ (".c90", "application/x-c90")
    ∷ (".cab", "application/x-shockwave-flash")
    ∷ (".cal", "application/x-cals")
    ∷ (".cat", "application/vnd.ms-pki.seccat")
    ∷ (".cdf", "application/x-netcdf")
    ∷ (".cdr", "application/x-cdr")
    ∷ (".cel", "application/x-cel")
    ∷ (".cer", "application/x-x509-ca-cert")
    ∷ (".cg4", "application/x-g4")
    ∷ (".cgm", "application/x-cgm")
    ∷ (".chm", "application/mshelp")
    ∷ (".cit", "application/x-cit")
    ∷ (".class", "java/*")
    ∷ (".cml", "text/xml")
    ∷ (".cmp", "application/x-cmp")
    ∷ (".cmx", "application/x-cmx")
    ∷ (".cot", "application/x-cot")
    ∷ (".crl", "application/pkix-crl")
    ∷ (".crt", "application/x-x509-ca-cert")
    ∷ (".csi", "application/x-csi")
    ∷ (".css", "text/css")
    ∷ (".cut", "application/x-cut")
    ∷ (".dbf", "application/x-dbf")
    ∷ (".dbm", "application/x-dbm")
    ∷ (".dbx", "application/x-dbx")
    ∷ (".dcd", "text/xml")
    ∷ (".dcx", "application/x-dcx")
    ∷ (".der", "application/x-x509-ca-cert")
    ∷ (".dgn", "application/x-dgn")
    ∷ (".dib", "application/x-dib")
    ∷ (".dll", "application/x-msdownload")
    ∷ (".doc", "application/msword")
    ∷ (".dot", "application/msword")
    ∷ (".drw", "application/x-drw")
    ∷ (".dtd", "text/xml")
    ∷ (".dwf", "application/x-dwf")
    ∷ (".dwg", "application/x-dwg")
    ∷ (".dxb", "application/x-dxb")
    ∷ (".dxf", "application/x-dxf")
    ∷ (".edn", "application/vnd.adobe.edn")
    ∷ (".emf", "application/x-emf")
    ∷ (".eml", "message/rfc822")
    ∷ (".ent", "text/xml")
    ∷ (".epi", "application/x-epi")
    ∷ (".eps", "application/postscript")
    ∷ (".etd", "application/x-ebx")
    ∷ (".exe", "application/x-msdownload")
    ∷ (".fax", "image/fax")
    ∷ (".fdf", "application/vnd.fdf")
    ∷ (".fif", "application/fractals")
    ∷ (".fo", "text/xml")
    ∷ (".frm", "application/x-frm")
    ∷ (".g4", "application/x-g4")
    ∷ (".gbr", "application/x-gbr")
    ∷ (".gif", "image/gif")
    ∷ (".gl2", "application/x-gl2")
    ∷ (".gp4", "application/x-gp4")
    ∷ (".gz", "application/x-gzip")
    ∷ (".hgl", "application/x-hgl")
    ∷ (".hlp", "application/mshelp")
    ∷ (".hmr", "application/x-hmr")
    ∷ (".hpg", "application/x-hpgl")
    ∷ (".hpl", "application/x-hpl")
    ∷ (".hqx", "application/mac-binhex40")
    ∷ (".hrf", "application/x-hrf")
    ∷ (".hta", "application/hta")
    ∷ (".htc", "text/x-component")
    ∷ (".htm", "text/html")
    ∷ (".html", "text/html")
    ∷ (".hts", "text/html")
    ∷ (".htt", "text/webviewhtml")
    ∷ (".htx", "text/html")
    ∷ (".icb", "application/x-icb")
    ∷ (".ico", "application/x-ico")
    ∷ (".iff", "application/x-iff")
    ∷ (".ig4", "application/x-g4")
    ∷ (".igs", "application/x-igs")
    ∷ (".iii", "application/x-iphone")
    ∷ (".img", "application/x-img")
    ∷ (".ins", "application/x-internet-signup")
    ∷ (".isp", "application/x-internet-signup")
    ∷ (".jar", "application/java-archive")
    ∷ (".java", "java/*")
    ∷ (".jfif", "image/jpeg")
    ∷ (".jpe", "image/jpeg")
    ∷ (".jpeg", "image/jpeg")
    ∷ (".jpg", "image/jpeg")
    ∷ (".jpz", "image/jpeg")
    ∷ (".js", "text/javascript")
    ∷ []
