-- ===== src/Http/Mime/Table/Second.antt =====
-- A third of the table of MimeType::MimeType (src/http_utility.cpp).
use boost_web.Common.{String, List, [], ◌∷◌}

-- MimeType::MimeType, from ".json" to ".rmvb"
unfoldable pub second_types : List (String × String)
second_types =
    (".json", "application/json")
    ∷ (".jsp", "text/html")
    ∷ (".la1", "audio/x-liquid-file")
    ∷ (".lar", "application/x-laplayer-reg")
    ∷ (".latex", "application/x-latex")
    ∷ (".lavs", "audio/x-liquid-secure")
    ∷ (".lbm", "application/x-lbm")
    ∷ (".lmsff", "audio/x-la-lms")
    ∷ (".log", "text/plain")
    ∷ (".ls", "application/x-javascript")
    ∷ (".ltr", "application/x-ltr")
    ∷ (".m1v", "video/x-mpeg")
    ∷ (".m2v", "video/x-mpeg")
    ∷ (".m3u", "audio/mpegurl")
    ∷ (".m4e", "video/mpeg4")
    ∷ (".mac", "application/x-mac")
    ∷ (".man", "application/x-troff-man")
    ∷ (".math", "text/xml")
    ∷ (".mdb", "application/x-mdb")
    ∷ (".mfp", "application/x-shockwave-flash")
    ∷ (".mht", "message/rfc822")
    ∷ (".mhtml", "message/rfc822")
    ∷ (".mi", "application/x-mi")
    ∷ (".mid", "audio/midi")
    ∷ (".midi", "audio/midi")
    ∷ (".mil", "application/x-mil")
    ∷ (".mml", "text/xml")
    ∷ (".mnd", "audio/x-musicnet-download")
    ∷ (".mns", "audio/x-musicnet-stream")
    ∷ (".mocha", "application/x-javascript")
    ∷ (".mov", "video/quicktime")
    ∷ (".movie", "video/x-sgi-movie")
    ∷ (".mp1", "audio/mp1")
    ∷ (".mp2", "audio/x-mpeg")
    ∷ (".mp2v", "video/mpeg")
    ∷ (".mp3", "audio/x-mpeg")
    ∷ (".mp4", "video/mp4")
    ∷ (".mpa", "video/x-mpg")
    ∷ (".mpd", "application/vnd.ms-project")
    ∷ (".mpe", "video/mpeg")
    ∷ (".mpeg", "video/mpeg")
    ∷ (".mpg", "video/mpeg")
    ∷ (".mpg4", "video/mp4")
    ∷ (".mpga", "video/mpeg")
    ∷ (".mpp", "application/vnd.ms-project")
    ∷ (".mps", "video/x-mpeg")
    ∷ (".mpt", "application/vnd.ms-project")
    ∷ (".mpv", "video/mpg")
    ∷ (".mpv2", "video/mpeg")
    ∷ (".mpw", "application/vnd.ms-project")
    ∷ (".mpx", "application/vnd.ms-project")
    ∷ (".mtx", "text/xml")
    ∷ (".mxp", "application/x-mmxp")
    ∷ (".net", "image/pnetvue")
    ∷ (".nrf", "application/x-nrf")
    ∷ (".nws", "message/rfc822")
    ∷ (".odc", "text/x-ms-odc")
    ∷ (".out", "application/x-out")
    ∷ (".p10", "application/pkcs10")
    ∷ (".p12", "application/x-pkcs12")
    ∷ (".p7b", "application/x-pkcs7-certificates")
    ∷ (".p7c", "application/pkcs7-mime")
    ∷ (".p7m", "application/pkcs7-mime")
    ∷ (".p7r", "application/x-pkcs7-certreqresp")
    ∷ (".p7s", "application/pkcs7-signature")
    ∷ (".pc5", "application/x-pc5")
    ∷ (".pci", "application/x-pci")
    ∷ (".pcl", "application/x-pcl")
    ∷ (".pcx", "application/x-pcx")
    ∷ (".pdf", "application/pdf")
    ∷ (".pdx", "application/vnd.adobe.pdx")
    ∷ (".pfx", "application/x-pkcs12")
    ∷ (".pgl", "application/x-pgl")
    ∷ (".pic", "application/x-pic")
    ∷ (".pko", "application/vnd.ms-pki.pko")
    ∷ (".pl", "application/x-perl")
    ∷ (".plg", "text/html")
    ∷ (".pls", "audio/scpls")
    ∷ (".plt", "application/x-plt")
    ∷ (".png", "image/png")
    ∷ (".pot", "application/mspowerpoint")
    ∷ (".ppa", "application/vnd.ms-powerpoint")
    ∷ (".ppm", "application/x-ppm")
    ∷ (".pps", "application/mspowerpoint")
    ∷ (".ppt", "application/mspowerpoint")
    ∷ (".ppz", "application/mspowerpoint")
    ∷ (".pr", "application/x-pr")
    ∷ (".prf", "application/pics-rules")
    ∷ (".prn", "application/x-prn")
    ∷ (".prt", "application/x-prt")
    ∷ (".ps", "application/postscript")
    ∷ (".ptn", "application/x-ptn")
    ∷ (".pwz", "application/vnd.ms-powerpoint")
    ∷ (".r3t", "text/vnd.rn-realtext3d")
    ∷ (".ra", "audio/vnd.rn-realaudio")
    ∷ (".ram", "audio/x-pn-realaudio")
    ∷ (".rar", "application/x-rar-compressed")
    ∷ (".ras", "application/x-ras")
    ∷ (".rat", "application/rat-file")
    ∷ (".rdf", "text/xml")
    ∷ (".rec", "application/vnd.rn-recording")
    ∷ (".red", "application/x-red")
    ∷ (".rgb", "application/x-rgb")
    ∷ (".rjs", "application/vnd.rn-realsystem-rjs")
    ∷ (".rjt", "application/vnd.rn-realsystem-rjt")
    ∷ (".rlc", "application/x-rlc")
    ∷ (".rle", "application/x-rle")
    ∷ (".rm", "audio/x-pn-realaudio")
    ∷ (".rmf", "application/vnd.adobe.rmf")
    ∷ (".rmi", "audio/mid")
    ∷ (".rmj", "application/vnd.rn-realsystem-rmj")
    ∷ (".rmm", "audio/x-pn-realaudio")
    ∷ (".rmp", "application/vnd.rn-rn_music_package")
    ∷ (".rms", "application/vnd.rn-realmedia-secure")
    ∷ (".rmvb", "audio/x-pn-realaudio")
    ∷ []
