-- ===== src/Http/Mime/Table/Third.antt =====
-- A third of the table of MimeType::MimeType (src/http_utility.cpp).
use boost_web.Common.{String, List, [], ◌∷◌}

-- MimeType::MimeType, from ".rmx" to ".zip"
unfoldable pub third_types : List (String × String)
third_types =
    (".rmx", "application/vnd.rn-realsystem-rmx")
    ∷ (".rnx", "application/vnd.rn-realplayer")
    ∷ (".rp", "image/vnd.rn-realpix")
    ∷ (".rpm", "audio/x-pn-realaudio-plugin")
    ∷ (".rsml", "application/vnd.rn-rsml")
    ∷ (".rt", "text/vnd.rn-realtext")
    ∷ (".rtf", "application/rtf")
    ∷ (".rv", "video/vnd.rn-realvideo")
    ∷ (".sam", "application/x-sam")
    ∷ (".sat", "application/x-sat")
    ∷ (".sdp", "application/sdp")
    ∷ (".sdw", "application/x-sdw")
    ∷ (".shtml", "text/html")
    ∷ (".sit", "application/x-stuffit")
    ∷ (".slb", "application/x-slb")
    ∷ (".sld", "application/x-sld")
    ∷ (".slk", "drawing/x-slk")
    ∷ (".smi", "application/smil")
    ∷ (".smil", "application/smil")
    ∷ (".smk", "application/x-smk")
    ∷ (".snd", "audio/basic")
    ∷ (".sol", "text/plain")
    ∷ (".sor", "text/plain")
    ∷ (".spc", "application/x-pkcs7-certificates")
    ∷ (".spl", "application/futuresplash")
    ∷ (".spp", "text/xml")
    ∷ (".ssm", "application/streamingmedia")
    ∷ (".sst", "application/vnd.ms-pki.certstore")
    ∷ (".stl", "application/vnd.ms-pki.stl")
    ∷ (".stm", "text/html")
    ∷ (".sty", "application/x-sty")
    ∷ (".svg", "text/xml")
    ∷ (".swf", "application/x-shockwave-flash")
    ∷ (".swfl", "application/x-shockwave-flash")
    ∷ (".tar", "application/x-tar")
    ∷ (".tdf", "application/x-tdf")
    ∷ (".tg4", "application/x-tg4")
    ∷ (".tga", "application/x-tga")
    ∷ (".tgz", "application/x-tar")
    ∷ (".tif", "application/x-tif")
    ∷ (".tiff", "image/tiff")
    ∷ (".tld", "text/xml")
    ∷ (".top", "drawing/x-top")
    ∷ (".torrent", "application/x-bittorrent")
    ∷ (".tsd", "text/xml")
    ∷ (".txt", "text/plain")
    ∷ (".uin", "application/x-icq")
    ∷ (".uls", "text/iuls")
    ∷ (".vcf", "text/x-vcard")
    ∷ (".vda", "application/x-vda")
    ∷ (".vdx", "application/vnd.visio")
    ∷ (".vml", "text/xml")
    ∷ (".vpg", "application/x-vpeg005")
    ∷ (".vsd", "application/x-vsd")
    ∷ (".vss", "application/vnd.visio")
    ∷ (".vst", "application/x-vst")
    ∷ (".vsw", "application/vnd.visio")
    ∷ (".vsx", "application/vnd.visio")
    ∷ (".vtx", "application/vnd.visio")
    ∷ (".vxml", "text/xml")
    ∷ (".wav", "audio/wav")
    ∷ (".wax", "audio/x-ms-wax")
    ∷ (".wb1", "application/x-wb1")
    ∷ (".wb2", "application/x-wb2")
    ∷ (".wb3", "application/x-wb3")
    ∷ (".wbmp", "image/vnd.wap.wbmp")
    ∷ (".wiz", "application/msword")
    ∷ (".wk3", "application/x-wk3")
    ∷ (".wk4", "application/x-wk4")
    ∷ (".wkq", "application/x-wkq")
    ∷ (".wks", "application/x-wks")
    ∷ (".wm", "video/x-ms-wm")
    ∷ (".wma", "audio/x-ms-wma")
    ∷ (".wmd", "application/x-ms-wmd")
    ∷ (".wmf", "application/x-wmf")
    ∷ (".wml", "text/vnd.wap.wml")
    ∷ (".wmv", "audio/x-ms-wmv")
    ∷ (".wmx", "video/x-ms-wmx")
    ∷ (".wmz", "application/x-ms-wmz")
    ∷ (".wp6", "application/x-wp6")
    ∷ (".wpd", "application/x-wpd")
    ∷ (".wpg", "application/x-wpg")
    ∷ (".wpl", "application/vnd.ms-wpl")
    ∷ (".wq1", "application/x-wq1")
    ∷ (".wr1", "application/x-wr1")
    ∷ (".wri", "application/x-wri")
    ∷ (".wrk", "application/x-wrk")
    ∷ (".ws", "application/x-ws")
    ∷ (".ws2", "application/x-ws")
    ∷ (".wsc", "text/scriptlet")
    ∷ (".wsdl", "text/xml")
    ∷ (".wvx", "video/x-ms-wvx")
    ∷ (".x_b", "application/x-x_b")
    ∷ (".x_t", "application/x-x_t")
    ∷ (".xdp", "application/vnd.adobe.xdp")
    ∷ (".xdr", "text/xml")
    ∷ (".xfd", "application/vnd.adobe.xfd")
    ∷ (".xfdf", "application/vnd.adobe.xfdf")
    ∷ (".xht", "application/xhtml+xml")
    ∷ (".xhtm", "application/xhtml+xml")
    ∷ (".xhtml", "application/xhtml+xml")
    ∷ (".xla", "application/msexcel")
    ∷ (".xls", "application/msexcel")
    ∷ (".xlw", "application/x-xlw")
    ∷ (".xml", "text/xml")
    ∷ (".xpl", "audio/scpls")
    ∷ (".xq", "text/xml")
    ∷ (".xql", "text/xml")
    ∷ (".xquery", "text/xml")
    ∷ (".xsd", "text/xml")
    ∷ (".xsl", "text/xml")
    ∷ (".xslt", "text/xml")
    ∷ (".xwd", "application/x-xwd")
    ∷ (".zip", "application/zip")
    ∷ []
